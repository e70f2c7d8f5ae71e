-- ===== src/Server/Arrival/Pool.antt =====
-- src/server.c: `thread_function` reads a head that comes in pieces.
use barehttp.Base.{
  ℕ, zero, suc, ◌+◌, ◌-◌, ◌<◌, ◌≤◌, ◌≡◌, arith, Bool-cases, inl, inr, ◌==◌, ◌∷◌, ◌++◌, some, ap,
  ◌∙◌, length, length-append,
}
use barehttp.CString.{Bytes}
use barehttp.Os.{Os, Trace, received}
use barehttp.Http.{HttpRequest, max_buffr}
use barehttp.Tcp.{tcp_recv}
use barehttp.Server.Worker.{
  Parser, Parse, http_parse_request, head_parsed, head_received, read_head,
}
use barehttp.Server.Arrival.{HeadArrives, last, more, Receives, after_receive}

module _ (os : Os) (phr : Parser) (fd : ℕ) where
  -- One round of the loop.
  read_head_round :
      (fuel : ℕ) (buff : Bytes) (t : Trace) (c : ℕ) (bs : Bytes) (q : Parse HttpRequest)
      → Receives os fd buff t (c ∷ bs)
      → http_parse_request phr (buff ++ (c ∷ bs)) (length buff) ≡ q
      → let buff' = buff ++ (c ∷ bs) in
        read_head os phr fd (suc fuel) buff t
        ≡ head_parsed os phr fd
            (read_head os phr fd fuel buff')
            buff'
            q
            (after_receive fd buff t (c ∷ bs))
  unfolding read_head head_received tcp_recv
  read_head_round fuel buff t c bs q r p =
      let next = read_head os phr fd fuel in
      ap (λ a. head_received os phr fd next buff a (received fd (max_buffr - length buff) a ∷ t)) r
      ∙ ap
          (λ q.
            head_parsed os phr fd (next (buff ++ (c ∷ bs))) (buff ++ (c ∷ bs)) q
              (after_receive fd buff t (c ∷ bs)))
          p

  module _ (text : Bytes) (after : Trace) (size : ℕ) (request : HttpRequest) where
    -- With fuel for each free byte of the buffer and one more the loop ends with the head, the text
    -- and the request.
    pub read_head_arrives :
        (fuel : ℕ) (buff : Bytes) (t : Trace)
        → max_buffr < fuel + length buff
        → length text ≤ max_buffr
        → HeadArrives os phr fd text after size request buff t
        → read_head os phr fd fuel buff t ≡ ((text, some (size, request)), after)
    unfolding head_parsed
    read_head_arrives zero buff t f l (last _ _ c bs r p e a) =
        absurd (omega (arith, length-append buff (c ∷ bs), ap length e))
    read_head_arrives (suc fuel) buff t f l (last _ _ c bs r p e a) =
        read_head_round fuel buff t c bs _ r p ∙ cc
    read_head_arrives zero buff t f l (more _ _ c bs r p s h) =
        absurd (omega (arith, length-append buff (c ∷ bs)))
    read_head_arrives (suc fuel) buff t f l (more _ _ c bs r p s h) =
        let buff' = buff ++ (c ∷ bs) in
        let rest =
          read_head_arrives fuel buff' (after_receive fd buff t (c ∷ bs))
            (omega (arith, length-append buff (c ∷ bs))) l h in
        read_head_round fuel buff t c bs _ r p ∙ elim (Bool-cases (length buff' == max_buffr)) [
          | inl full ↦ absurd (ground arith)
          | inr room ↦ rw room rest
        ]
