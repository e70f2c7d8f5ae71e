-- ===== src/Tcp/Laws.antt =====
-- What the functions of srclib/tcp.c do to a descriptor on each branch.
use barehttp.Base.{ℕ, ◌≡◌, arith, ◌∷◌, take, take_of_le, length, ap, ◌∙◌}
use barehttp.CString.{Bytes}
use barehttp.Os.{Os, Trace}
use barehttp.Os.Traces.{sends, opens}
use barehttp.Tcp.{tcp_shutdown, tcp_send}

module _ (os : Os) where
  sends-tcp_shutdown : (g fd : ℕ) (t : Trace) → sends g (tcp_shutdown os fd t).1 ≡ sends g t
  unfolding tcp_shutdown sends
  sends-tcp_shutdown g fd t = ground arith

  pub opens-tcp_shutdown : (fd : ℕ) (t : Trace) → opens (tcp_shutdown os fd t).1 ≡ opens t
  unfolding tcp_shutdown opens
  opens-tcp_shutdown fd t = ground arith

  sends-tcp_send :
      (fd : ℕ) (buf : Bytes) (len : ℕ) (t : Trace)
      → sends fd (tcp_send os fd buf len t).1 ≡ take len buf ∷ sends fd t
  unfolding tcp_send sends
  sends-tcp_send fd buf len t = grind (arith, sends-tcp_shutdown)

  pub opens-tcp_send :
      (fd : ℕ) (buf : Bytes) (len : ℕ) (t : Trace) → opens (tcp_send os fd buf len t).1 ≡ opens t
  unfolding tcp_send opens
  opens-tcp_send fd buf len t = grind (arith, opens-tcp_shutdown)

  pub sends-tcp_send_all :
      (fd : ℕ) (buf : Bytes) (t : Trace)
      → sends fd (tcp_send os fd buf (length buf) t).1 ≡ buf ∷ sends fd t
  sends-tcp_send_all fd buf t =
      sends-tcp_send fd buf (length buf) t
      ∙ ap (λ b. b ∷ sends fd t) (take_of_le (length buf) buf (omega arith))
