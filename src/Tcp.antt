-- ===== src/Tcp.antt =====
-- srclib/tcp.c: sockets.
pub mod Laws
pub mod Pending
pub mod Start
mod Examples
use barehttp.Base.{ℕ, Bool, true, false, ◌==◌, if◌then◌else◌, ℤ, pos, minus_one, u16, take}
use barehttp.CString.{Bytes}
use barehttp.Os.{
  Os, M, pure, call, ◌>>=◌, ◌>>◌, Result, ok, err, made_socket, set_reuseaddr, bound, listened,
  accepted, sent, received, shut, closed, epipe, enotconn, ebadf,
}

-- `errno` after a call that left `e` was followed by one with this answer.
abbrev errno_after : {A : Type 0} → ℕ → Result A → ℕ
errno_after e (ok _) = e
errno_after e (err e') = e'

abbrev is_ignored : ℕ → Bool
is_ignored e = if e == enotconn then true else e == ebadf

module _ (os : Os) where
  abbrev pub close : ℕ → M (Result (Unit {0}))
  close fd = call (λ t. os.close t fd) (closed fd)

  -- The result, and what `*sockfd` is afterwards. `htons` takes the port as a `uint16_t`.
  unfoldable pub tcp_start_connection : ℤ → ℤ → M (ℤ × ℤ)
  tcp_start_connection port max_conns = do
    s ← call (λ t. os.socket t) made_socket
    elim s [
      | err _ ↦ pure (minus_one, minus_one)
      | ok sockfd ↦ do
        opt ← call (λ t. os.setsockopt t sockfd) (set_reuseaddr sockfd)
        elim opt [
          | err _ ↦ do close sockfd; pure (minus_one, pos sockfd)
          | ok _ ↦ do
            b ← call (λ t. os.bind t sockfd (u16 port)) (bound sockfd (u16 port))
            elim b [
              | err _ ↦ do close sockfd; pure (minus_one, pos sockfd)
              | ok _ ↦ do
                l ← call (λ t. os.listen t sockfd max_conns) (listened sockfd max_conns)
                elim l [
                  | err _ ↦ do close sockfd; pure (minus_one, pos sockfd)
                  | ok _ ↦ pure (pos 0, pos sockfd)
                ]
            ]
        ]
    ]

  unfoldable pub tcp_accept_connection : ℕ → M (Result ℕ)
  tcp_accept_connection sockfd = call (λ t. os.accept t sockfd) (accepted sockfd)

  unfoldable pub tcp_shutdown : ℕ → M ℤ
  tcp_shutdown fd = do
    ret ← call (λ t. os.shutdown t fd) (shut fd)
    c ← close fd
    elim ret [
      | ok _ ↦ pure (pos 0)
      | err e ↦ if is_ignored (errno_after e c) then pure (pos 0) else pure minus_one
    ]

  -- `len` bytes from `buf`, where a caller never names more than stand there.
  unfoldable pub tcp_send : ℕ → Bytes → ℕ → M ℤ
  tcp_send fd buf len = do
    ret ← call (λ t. os.send t fd (take len buf)) (sent fd (take len buf))
    elim ret [
      | ok n ↦ pure (pos n)
      | err e ↦ if e == epipe then (do tcp_shutdown fd; pure minus_one) else pure minus_one
    ]

  -- The bytes that arrive, at most `len`; none when the other side has closed.
  unfoldable pub tcp_recv : ℕ → ℕ → M (Result Bytes)
  tcp_recv fd len = call (λ t. os.recv t fd len) (received fd len)
