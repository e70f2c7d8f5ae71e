-- ===== src/Server/Worker/Buffer.antt =====
-- What a thread of src/server.c leaves in its buffer when it is done with a connection.
use mathlib.Core.Path.{subst}
use barehttp.Base.{
  ℕ, zero, suc, ◌-◌, ◌≡◌, ◌≤◌, ◌⊎◌, inl, inr, refl, arith, List, [], ◌∷◌, ◌++◌, some, none, ℤ,
  length, length-append, length-take, take, sym, take_of_le, ap, ◌∙◌, Bool, Bool-cases, true, false,
}
use barehttp.CString.{Bytes}
use barehttp.Os.{Os, Trace, Result, ok, err, M}
use barehttp.Tcp.{tcp_recv}
use barehttp.Http.{HttpRequest, ServerConf, max_buffr}
use barehttp.Http.Request.{http_get_content_length}
use barehttp.Server.Worker.{
  Head, Parser, Parse, invalid, partial, complete, http_parse_request, refuse_head, head_parsed,
  head_received, read_head, body_received, read_body, complete_body, answer, body_done, head_done,
  begin, serve, is_short, thread_function,
}

-- `recv` never hands over more than there is room for.
unfoldable pub RecvIsBounded : Os → Type 0
RecvIsBounded os =
    (t : Trace) (fd room : ℕ) (bs : Bytes) → os.recv t fd room ≡ ok bs → length bs ≤ room

-- `b` starts with the bytes of `a`, and is no longer than the array where `a` is not.
unfoldable pub Grown : Bytes → Bytes → Type 0
Grown a b = (take (length a) b ≡ a) × (length a ≤ max_buffr → length b ≤ max_buffr)

Grown-self : (a : Bytes) → Grown a a
unfolding Grown
Grown-self a = (take_of_le (length a) a (omega arith), λ h. h)

Grown-le : (a b : Bytes) → Grown a b → length a ≤ max_buffr → length b ≤ max_buffr
unfolding Grown
Grown-le a b (p, h) = h

take-append : (a x b : Bytes) → take (length (a ++ x)) b ≡ a ++ x → take (length a) b ≡ a
take-append [] x b h = refl
take-append (c ∷ a) x [] h = ground arith
take-append (c ∷ a) x (d ∷ b) h = ground (arith, take-append a x b)

Grown-append : (a x b : Bytes) → length x ≤ max_buffr - length a → Grown (a ++ x) b → Grown a b
unfolding Grown
Grown-append a x b l (p, h) = (take-append a x b p, λ m. h (omega (arith, length-append a x)))

take-take : (n m : ℕ) (c : Bytes) → n ≤ m → take n (take m c) ≡ take n c
take-take zero m c h = refl
take-take (suc n) zero c h = absurd (omega arith)
take-take (suc n) (suc m) [] h = refl
take-take (suc n) (suc m) (x ∷ c) h = ap (λ l. x ∷ l) (take-take n m c (omega arith))

Grown-trans : (a b c : Bytes) → Grown a b → Grown b c → Grown a c
unfolding Grown
Grown-trans a b c (p, h) (q, k) =
    let l : length a ≤ length b = omega (arith, ap length p, length-take (length a) b) in
    (sym (take-take (length a) (length b) c l) ∙ ap (take (length a)) q ∙ p, λ m. k (h m))

-- What one call of `recv` for the rest of the array may add.
abbrev pub Fits : Bytes → Result Bytes → Type 0
Fits buff (ok bs) = length bs ≤ max_buffr - length buff
Fits buff (err _) = Unit {0}

module _ (os : Os) (phr_parse_request : Parser) (fd : ℕ) where
  pub tcp_recv-Fits :
      (buff : Bytes) (t : Trace)
      → RecvIsBounded os
      → Fits buff (tcp_recv os fd (max_buffr - length buff) t).0
  unfolding tcp_recv RecvIsBounded
  tcp_recv-Fits buff t b = go (os.recv t fd (max_buffr - length buff)) refl
    where
      go : (r : Result Bytes) → os.recv t fd (max_buffr - length buff) ≡ r → Fits buff r
      go (ok bs) e = b t fd (max_buffr - length buff) bs e
      go (err _) e = tt

  head_parsed-Grown :
      (a : Bytes) (again : M Head) (buff : Bytes) (p : Parse HttpRequest) (t : Trace)
      → Grown a buff
      → Grown a (again t).0.0
      → Grown a (head_parsed os phr_parse_request fd again buff p t).0.0
  unfolding head_parsed refuse_head
  head_parsed-Grown a again buff invalid t g h = g
  head_parsed-Grown a again buff partial t g h = ground arith
  head_parsed-Grown a again buff (complete size r) t g h = g

  head_received-Grown :
      (again : Bytes → M Head) (buff : Bytes) (r : Result Bytes) (t : Trace)
      → Fits buff r
      → ((b : Bytes) (u : Trace) → Grown b (again b u).0.0)
      → Grown buff (head_received os phr_parse_request fd again buff r t).0.0
  unfolding head_received
  head_received-Grown again buff (ok []) t l h = Grown-self buff
  head_received-Grown again buff (ok (b ∷ bs)) t l h =
      let buff' : Bytes = buff ++ (b ∷ bs) in
      head_parsed-Grown buff (again buff') buff'
        (http_parse_request phr_parse_request buff' (length buff)) t
        (Grown-append buff (b ∷ bs) buff' l (Grown-self buff'))
        (Grown-append buff (b ∷ bs) _ l (h buff' t))
  head_received-Grown again buff (err e) t l h = grind (arith, Grown-self)

  read_head-Grown :
      (fuel : ℕ) (buff : Bytes) (t : Trace)
      → RecvIsBounded os
      → Grown buff (read_head os phr_parse_request fd fuel buff t).0.0
  unfolding read_head
  read_head-Grown zero buff t b = Grown-self buff
  read_head-Grown (suc fuel) buff t b =
      let r = tcp_recv os fd (max_buffr - length buff) t in
      head_received-Grown (read_head os phr_parse_request fd fuel) buff r.0 r.1
        (tcp_recv-Fits buff t b) (λ c u. read_head-Grown fuel c u b)

  body_received-Grown :
      (again : Bytes → M (Bytes × Bool)) (ip buff : Bytes) (r : Result Bytes) (t : Trace)
      → Fits buff r
      → ((b : Bytes) (u : Trace) → Grown b (again b u).0.0)
      → Grown buff (body_received os phr_parse_request fd again ip buff r t).0.0
  unfolding body_received
  body_received-Grown again ip buff (ok []) t l h = Grown-self buff
  body_received-Grown again ip buff (ok (b ∷ bs)) t l h =
      Grown-append buff (b ∷ bs) _ l (h (buff ++ (b ∷ bs)) t)
  body_received-Grown again ip buff (err e) t l h = Grown-self buff

  read_body-Grown :
      (fuel : ℕ) (ip : Bytes) (size : ℕ) (n : ℤ) (buff : Bytes) (t : Trace)
      → RecvIsBounded os
      → Grown buff (read_body os phr_parse_request fd fuel ip size n buff t).0.0
  unfolding read_body
  read_body-Grown zero ip size n buff t b = Grown-self buff
  read_body-Grown (suc fuel) ip size n buff t b = elim (Bool-cases (is_short buff size n)) [
    | inl e ↦ rw e (
        body_received-Grown (read_body os phr_parse_request fd fuel ip size n) ip buff r.0 r.1
          (tcp_recv-Fits buff t b) (λ c u. read_body-Grown fuel ip size n c u b))
    | inr e ↦ rw e (Grown-self buff)
  ]
    where
      r : Result Bytes × Trace
      r = tcp_recv os fd (max_buffr - length buff) t

  complete_body-Grown :
      (ip : Bytes) (size : ℕ) (request : HttpRequest) (buff : Bytes) (t : Trace)
      → RecvIsBounded os
      → Grown buff (complete_body os phr_parse_request fd ip size request buff t).0.0
  unfolding complete_body
  complete_body-Grown ip size request buff t b = ground (
    arith,
    Grown-self buff,
    read_body-Grown (suc max_buffr) ip size (http_get_content_length request) buff t b,
  )

  answer-buffer :
      (id : ℕ) (sc : ServerConf) (size : ℕ) (request : HttpRequest) (buff : Bytes) (t : Trace)
      → let b = (answer os phr_parse_request fd id sc size request buff t).0 in
        (b ≡ []) ⊎ (b ≡ buff)
  unfolding answer
  answer-buffer id sc size request buff t = ground arith

  body_done-Grown :
      (a : Bytes) (id : ℕ) (sc : ServerConf) (size : ℕ) (request : HttpRequest)
      (body : Bytes × Bool) (t : Trace)
      → Grown a body.0
      → let b = (body_done os phr_parse_request fd id sc size request body t).0 in
        (b ≡ []) ⊎ Grown a b
  unfolding body_done
  body_done-Grown a id sc size request (buff, true) t g =
      elim (answer-buffer id sc size request buff t) [
        | inl e ↦ inl e
        | inr e ↦ inr (subst (Grown a) (sym e) g)
      ]
  body_done-Grown a id sc size request (buff, false) t g = inr g

  head_done-Grown :
      (a : Bytes) (id : ℕ) (sc : ServerConf) (ip : Bytes) (head : Head) (t : Trace)
      → RecvIsBounded os
      → Grown a head.0
      → let b = (head_done os phr_parse_request fd id sc ip head t).0 in (b ≡ []) ⊎ Grown a b
  unfolding head_done
  head_done-Grown a id sc ip (buff, none) t b g = inr g
  head_done-Grown a id sc ip (buff, some (size, request)) t b g =
      let body = complete_body os phr_parse_request fd ip size request buff t in
      body_done-Grown a id sc size request body.0 body.1
        (Grown-trans a buff body.0.0 g (complete_body-Grown ip size request buff t b))

  -- Where `recv` hands over no more than it is asked for, when a thread is done with a connection its
  -- buffer is empty, or it starts with the bytes that stood in it before and is no longer than its
  -- array where it was not.
  serve-Grown :
      (id : ℕ) (sc : ServerConf) (buff : Bytes) (t : Trace)
      → RecvIsBounded os
      → let b = (serve os phr_parse_request fd id sc buff t).0 in (b ≡ []) ⊎ Grown buff b
  unfolding serve
  serve-Grown id sc buff t b =
      let begun = begin os phr_parse_request fd id t in
      let head = read_head os phr_parse_request fd (suc max_buffr) buff begun.1 in
      head_done-Grown buff id sc begun.0 head.0 head.1 b
        (read_head-Grown (suc max_buffr) buff begun.1 b)

-- Where `recv` hands over no more than it is asked for, a thread that starts with no more in its
-- buffer than the array holds has no more in it after any connections.
pub thread_function-le :
    (os : Os) (phr_parse_request : Parser) (id : ℕ) (sc : ServerConf) (fds : List ℕ) (buff : Bytes)
    (t : Trace)
    → RecvIsBounded os
    → length buff ≤ max_buffr
    → length (thread_function os phr_parse_request id sc fds buff t).0 ≤ max_buffr
unfolding thread_function
thread_function-le os phr id sc [] buff t b h = h
thread_function-le os phr id sc (fd ∷ fds) buff t b h =
    let r = serve os phr fd id sc buff t in
    thread_function-le os phr id sc fds r.0 r.1 b (elim (serve-Grown os phr fd id sc buff t b) [
      | inl e ↦ omega (arith, ap length e)
      | inr g ↦ Grown-le buff r.0 g h
    ])
