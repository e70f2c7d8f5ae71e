-- ===== src/Tcp/Start.antt =====
-- `tcp_start_connection` of srclib/tcp.c: the socket that it leaves open.
use barehttp.Base.{
  ℕ, ◌+◌, ◌-◌, ◌≡◌, ◌⊎◌, arith, inl, inr, ◌==◌, if◌then◌else◌, [], ◌∷◌, ℤ, pos, u16, minus_one,
}
use barehttp.Os.{
  Os, Event, Trace, Result, ok, err, made_socket, set_reuseaddr, bound, listened, accepted, closed,
}
use barehttp.Tcp.{tcp_start_connection}

-- By how much an event changes how often a descriptor stands open as a socket.
abbrev count_socket : ℕ → Event → ℕ → ℕ
count_socket fd (made_socket (ok g)) n = if g == fd then n + 1 else n
count_socket fd (accepted _ (ok g)) n = if g == fd then n + 1 else n
count_socket fd (closed g _) n = if g == fd then n - 1 else n
count_socket fd e n = n

unfoldable pub socket_count : ℕ → Trace → ℕ
socket_count fd [] = 0
socket_count fd (e ∷ t) = count_socket fd e (socket_count fd t)

module _ (os : Os) (port max_conns : ℤ) (t : Trace) where
  abbrev result : (ℤ × ℤ) × Trace
  result = tcp_start_connection os port max_conns t

  -- The calls of a start that succeeds, newest first.
  abbrev pub Started : ℕ → Trace → Type 0
  Started fd u =
      u
      ≡ listened fd max_conns (ok tt)
        ∷ bound fd (u16 port) (ok tt)
        ∷ set_reuseaddr fd (ok tt)
        ∷ made_socket (ok fd)
        ∷ t

  abbrev new_socket : Result ℕ → ℕ
  new_socket (ok fd) = fd
  new_socket (err _) = 0

  started :
      (result.0 ≡ (pos 0, pos (new_socket (os.socket t))))
        × Started (new_socket (os.socket t)) result.1
      ⊎ (result.0.0 ≡ minus_one)
  unfolding tcp_start_connection
  started = ground arith

  failed : (g : ℕ) → result.0.0 ≡ minus_one → socket_count g result.1 ≡ socket_count g t
  unfolding tcp_start_connection socket_count
  failed g h = ground arith

  -- `tcp_start_connection` answers 0 with a new socket that allows its address to be used again, is
  -- bound to the port and listens with the given backlog, these calls in this order and no other; or
  -- it answers -1 and whatever socket it made is closed again.
  pub tcp_start_connection_lem :
      ((fd : ℕ) × (result.0 ≡ (pos 0, pos fd)) × Started fd result.1)
      ⊎ ((result.0.0 ≡ minus_one) × ((g : ℕ) → socket_count g result.1 ≡ socket_count g t))
  tcp_start_connection_lem = elim started [
    | inl (r, u) ↦ inl (new_socket (os.socket t), r, u)
    | inr r ↦ inr (r, λ g. failed g r)
  ]
