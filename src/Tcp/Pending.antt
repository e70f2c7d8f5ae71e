-- ===== src/Tcp/Pending.antt =====
-- The functions of srclib/tcp.c close no connection but the one that they are called for.
use barehttp.Base.{ℕ, ℤ, ◌≡◌, false, ◌==◌, arith}
use barehttp.CString.{Bytes}
use barehttp.Os.{Os, Trace}
use barehttp.Os.Pending.{pending, HasFreshFds}
use barehttp.Tcp.{tcp_start_connection, tcp_shutdown, tcp_send}

module _ (os : Os) (g : ℕ) where
  pub pending-tcp_start_connection :
      (port max_conns : ℤ) (t : Trace)
      → HasFreshFds os
      → pending g (tcp_start_connection os port max_conns t).1 ≡ pending g t
  unfolding tcp_start_connection pending
  pending-tcp_start_connection port max_conns t f = grind (arith, f.socket_fresh t g)

  module _ (fd : ℕ) (apart : (fd == g) ≡ false) where
    pub pending-tcp_shutdown : (t : Trace) → pending g (tcp_shutdown os fd t).1 ≡ pending g t
    unfolding tcp_shutdown pending
    pending-tcp_shutdown t = ground arith

    pub pending-tcp_send :
        (buf : Bytes) (len : ℕ) (t : Trace) → pending g (tcp_send os fd buf len t).1 ≡ pending g t
    unfolding tcp_send pending
    pending-tcp_send buf len t = grind (arith, pending-tcp_shutdown)
