-- ===== src/Server/Worker/Body.antt =====
-- The loop of `thread_function` in src/server.c that reads the body of a request.
use barehttp.Base.{
  ℕ, zero, suc, ◌+◌, ◌-◌, ◌≡◌, ◌≤◌, ◌<◌, refl, arith, [], ◌∷◌, ◌++◌, ltb, ℤ, pos, length, drop,
  length-drop, length-append, Bool, Bool-cases, true, false, inl, inr,
}
use barehttp.CString.{Bytes}
use barehttp.Os.{Os, Trace, Result, ok, err, M}
use barehttp.Tcp.{tcp_recv}
use barehttp.Http.{HttpRequest, max_buffr}
use barehttp.Http.Request.{http_get_content_length}
use barehttp.Server.Worker.{Parser, is_short, body_received, read_body, complete_body}
use barehttp.Server.Worker.Buffer.{RecvIsBounded, Fits, tcp_recv-Fits}

module _ (os : Os) (phr_parse_request : Parser) (fd : ℕ) where
  body_received-eq :
      (again again' : Bytes → M (Bytes × Bool)) (ip buff : Bytes) (r : Result Bytes) (t : Trace)
      → Fits buff r
      → ((c : ℕ) (x : Bytes)
          → length (c ∷ x) ≤ max_buffr - length buff
          → again (buff ++ (c ∷ x)) t ≡ again' (buff ++ (c ∷ x)) t)
      → body_received os phr_parse_request fd again ip buff r t
        ≡ body_received os phr_parse_request fd again' ip buff r t
  unfolding body_received
  body_received-eq again again' ip buff (ok []) t f h = refl
  body_received-eq again again' ip buff (ok (c ∷ x)) t f h = h c x f
  body_received-eq again again' ip buff (err e) t f h = refl

  -- Where `recv` hands over no more than it is asked for, one round for each free byte of the buffer
  -- and one more are enough to read a body: any two numbers of rounds that reach that far give the
  -- same result and the same calls.
  pub read_body-enough :
      (fuel fuel' : ℕ) (ip : Bytes) (size : ℕ) (n : ℤ) (buff : Bytes) (t : Trace)
      → RecvIsBounded os
      → length buff ≤ max_buffr
      → max_buffr < length buff + fuel
      → max_buffr < length buff + fuel'
      → read_body os phr_parse_request fd fuel ip size n buff t
        ≡ read_body os phr_parse_request fd fuel' ip size n buff t
  unfolding read_body
  read_body-enough zero fuel' ip size n buff t b l h k = absurd (omega arith)
  read_body-enough (suc fuel) zero ip size n buff t b l h k = absurd (omega arith)
  read_body-enough (suc fuel) (suc fuel') ip size n buff t b l h k =
      elim (Bool-cases (is_short buff size n)) [
        | inl e ↦
            let r = tcp_recv os fd (max_buffr - length buff) t in
            rw e (
              body_received-eq (read_body os phr_parse_request fd fuel ip size n)
                (read_body os phr_parse_request fd fuel' ip size n) ip buff r.0 r.1
                (tcp_recv-Fits os phr_parse_request fd buff t b)
                (λ c x f.
                  let n' : length (buff ++ (c ∷ x)) ≡ length buff + length (c ∷ x) =
                    length-append buff (c ∷ x) in
                  read_body-enough fuel fuel' ip size n (buff ++ (c ∷ x)) r.1 b (omega arith)
                    (omega arith) (omega arith)))
        | inr e ↦ rw e refl
      ]

  body_received_complete :
      (again : Bytes → M (Bytes × Bool)) (ip : Bytes) (size : ℕ) (n : ℤ) (buff : Bytes)
      (r : Result Bytes) (t : Trace)
      → ((c : Bytes) (u : Trace) → (again c u).0.1 ≡ true → is_short (again c u).0.0 size n ≡ false)
      → let a = (body_received os phr_parse_request fd again ip buff r t).0 in
        a.1 ≡ true → is_short a.0 size n ≡ false
  unfolding body_received
  body_received_complete again ip size n buff (ok []) t h e = absurd (ground arith)
  body_received_complete again ip size n buff (ok (c ∷ x)) t h e = h (buff ++ (c ∷ x)) t e
  body_received_complete again ip size n buff (err _) t h e = absurd (ground arith)

  read_body_complete :
      (fuel : ℕ) (ip : Bytes) (size : ℕ) (n : ℤ) (buff : Bytes) (t : Trace)
      → let a = (read_body os phr_parse_request fd fuel ip size n buff t).0 in
        a.1 ≡ true → is_short a.0 size n ≡ false
  unfolding read_body
  read_body_complete zero ip size n buff t = λ e. absurd (ground arith)
  read_body_complete (suc fuel) ip size n buff t = elim (Bool-cases (is_short buff size n)) [
    | inl e ↦
        let r = tcp_recv os fd (max_buffr - length buff) t in
        rw e (
          body_received_complete (read_body os phr_parse_request fd fuel ip size n) ip size n buff
            r.0 r.1 (λ c u. read_body_complete fuel ip size n c u))
    | inr e ↦ rw e (λ h. e)
  ]

  -- For a Content-Length that is not negative: where the connection is still open behind the two
  -- loops, at least that many bytes stand behind the head, and head and body together are no longer
  -- than the buffer.
  pub complete_body_lem :
      (ip : Bytes) (size : ℕ) (request : HttpRequest) (buff : Bytes) (n : ℕ) (t : Trace)
      → http_get_content_length request ≡ pos n
      → let a = (complete_body os phr_parse_request fd ip size request buff t).0 in
        a.1 ≡ true → (n ≤ length (drop size a.0)) × (n + size ≤ max_buffr)
  unfolding complete_body
  complete_body_lem ip size request buff n t e = elim (Bool-cases (ltb max_buffr (n + size))) [
    | inl q ↦ rw (e, q) (λ h. absurd (ground arith))
    | inr q ↦
        rw (e, q)
          (λ h.
            let a = read_body os phr_parse_request fd (suc max_buffr) ip size (pos n) buff t in
            let s : is_short a.0.0 size (pos n) ≡ false =
              read_body_complete (suc max_buffr) ip size (pos n) buff t h in
            (ground (arith, length-drop size a.0.0), ground arith))
  ]
