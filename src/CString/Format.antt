-- ===== src/CString/Format.antt =====
-- Numbers as `%d` prints them.
use barehttp.Base.{
  ℕ, zero, suc, ◌+◌, ◌*◌, ◌/◌, ◌%◌, ◌^◌, ◌<◌, ◌≤◌, length, ◌≡◌, ap, [], ◌∷◌, arith, ltb,
  if◌then◌else◌, ℤ, pos, negsuc, true, sym, Bool-cases, ◌∙◌, ltb→lt, inl, inr,
}
use barehttp.CString.Memory.{NoNul}
use barehttp.CString.{Bytes, digits_from, is_digit, atoi, signed, skip_space, to_int}

-- The digits of `n` in front of the text `acc`. Fuel above `n` is enough.
unfoldable decimal_from : ℕ → ℕ → Bytes → Bytes
decimal_from zero n acc = acc
decimal_from (suc f) n acc =
    let rest = decimal_from f (n / 10) ((b'0' + n % 10) ∷ acc) in
    if ltb n 10 then (b'0' + n) ∷ acc else rest

unfoldable pub decimal : ℕ → Bytes
unfolding decimal_from
decimal n = decimal_from (suc n) n []

-- `%d`.
unfoldable pub print_int : ℤ → Bytes
unfolding decimal
print_int (pos n) = decimal n
print_int (negsuc n) = b'-' ∷ decimal (suc n)

is_digit_digit : (d : ℕ) → d < 10 → is_digit (b'0' + d) ≡ true
unfolding is_digit
is_digit_digit d h = ground arith

digits_from_digit :
    (a d : ℕ) (acc : Bytes)
    → d < 10
    → digits_from a ((b'0' + d) ∷ acc) ≡ digits_from (a * 10 + d) acc
unfolding digits_from
digits_from_digit a d acc h =
    rw (is_digit_digit d h) (ap (λ k. digits_from (a * 10 + k) acc) (omega arith))

-- Reading digits goes through those of `n` and on into what follows.
digits_from-decimal_from :
    (f n : ℕ) (acc : Bytes) → n < f → digits_from 0 (decimal_from f n acc) ≡ digits_from n acc
unfolding decimal_from
digits_from-decimal_from zero n acc h = absurd (omega arith)
digits_from-decimal_from (suc f) n acc h = elim (Bool-cases (ltb n 10)) [
  | inl small ↦
      rw small
        (digits_from_digit 0 n acc (ltb→lt n 10 small) ∙ ap (λ k. digits_from k acc) (omega arith))
  | inr big ↦ rw big (
      digits_from-decimal_from f (n / 10) _ (ground arith)
      ∙ digits_from_digit (n / 10) (n % 10) acc (omega arith)
      ∙ ap (λ k. digits_from k acc) (omega arith))
]

to_int_small : (n : ℕ) → n < 2 ^ 31 → to_int n ≡ pos n
unfolding to_int
to_int_small n h = ground arith

-- Digits come first: `decimal_from` starts with one.
decimal_from_head :
    (f n : ℕ) (acc : Bytes)
    → n < f
    → (d : ℕ) × (rest : Bytes) × (d < 10) × (decimal_from f n acc ≡ (b'0' + d) ∷ rest)
unfolding decimal_from
decimal_from_head zero n acc h = absurd (omega arith)
decimal_from_head (suc f) n acc h = elim (Bool-cases (ltb n 10)) [
  | inl small ↦ (n, acc, ltb→lt n 10 small, rw small)
  | inr big ↦ rw big (decimal_from_head f (n / 10) _ (ground arith))
]

signed_digit :
    (d : ℕ) (rest : Bytes)
    → d < 10
    → signed (skip_space ((b'0' + d) ∷ rest)) ≡ to_int (digits_from 0 ((b'0' + d) ∷ rest))
unfolding skip_space
signed_digit d rest h = ground arith

-- `atoi` reads back every `int` that `%d` prints from a non-negative number.
pub atoi-decimal : (n : ℕ) → n < 2 ^ 31 → atoi (decimal n) ≡ pos n
unfolding atoi decimal
atoi-decimal n h =
    let (d, rest, lt, e) = decimal_from_head (suc n) n [] (omega arith) in
    ap (λ s. signed (skip_space s)) e
    ∙ signed_digit d rest lt
    ∙ ap (λ s. to_int (digits_from 0 s)) (sym e)
    ∙ ap to_int (digits_from-decimal_from (suc n) n [] (omega arith))
    ∙ to_int_small n h

-- 10 ^ (k + 1).
abbrev ten_to : ℕ → ℕ
ten_to zero = 10
ten_to (suc k) = 10 * ten_to k

length-decimal_from :
    (k f n : ℕ) (acc : Bytes)
    → n < f
    → n < ten_to k
    → length (decimal_from f n acc) ≤ k + 1 + length acc
unfolding decimal_from
length-decimal_from k zero n acc h b = absurd (omega arith)
length-decimal_from zero (suc f) n acc h b = ground arith
length-decimal_from (suc k) (suc f) n acc h b =
    ground (arith, length-decimal_from k f (n / 10) ((b'0' + n % 10) ∷ acc))

pub length-decimal : (k n : ℕ) → n < ten_to k → length (decimal n) ≤ k + 1
unfolding decimal
length-decimal k n h = omega (arith, length-decimal_from k (suc n) n [] (omega arith) h)

NoNul-decimal_from : (f n : ℕ) (acc : Bytes) → NoNul acc → NoNul (decimal_from f n acc)
unfolding decimal_from
NoNul-decimal_from zero n acc h = h
NoNul-decimal_from (suc f) n acc h =
    let rest = NoNul-decimal_from f (n / 10) ((b'0' + n % 10) ∷ acc) (omega arith, h) in
    elim (Bool-cases (ltb n 10)) [ inl small ↦ rw small (omega arith, h) | inr big ↦ rw big rest ]

pub NoNul-decimal : (n : ℕ) → NoNul (decimal n)
unfolding decimal
NoNul-decimal n = NoNul-decimal_from (suc n) n [] tt
