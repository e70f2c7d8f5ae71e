-- ===== src/CString/Memory.antt =====
-- Fixed arrays of `char`: what `snprintf` and `memcpy` leave in them, and the string that starts at
-- an address.
use barehttp.Base.{
  ℕ, ◌+◌, ◌-◌, ◌≤◌, ◌<◌, ◌≡◌, ◌≢◌, refl, [], ◌∷◌, ◌++◌, arith, ◌==◌, if◌then◌else◌, length,
  length-take, take-length, append_assoc, sym, ap, ◌∙◌, take, drop, length-append, length-drop,
  take_of_le,
}
use barehttp.CString.{Bytes}

-- The string that starts with the memory's first character: all up to the first NUL.
unfoldable pub c_str : Bytes → Bytes
c_str [] = []
c_str (c ∷ m) = let rest = c_str m in if c == 0 then [] else c ∷ rest

-- `memcpy (mem, bs, length bs)`.
unfoldable pub poke : Bytes → Bytes → Bytes
poke mem bs = bs ++ drop (length bs) mem

-- `memcpy (mem + i, bs, length bs)`.
unfoldable pub poke_at : Bytes → ℕ → Bytes → Bytes
poke_at mem i bs = take i mem ++ (bs ++ drop (i + length bs) mem)

-- `snprintf (buf, size, …)` at a positive size: what the string in `buf` is after the call, and the
-- value that the call returns, which is the length of the whole text.
unfoldable pub snprintf : ℕ → Bytes → Bytes × ℕ
snprintf size text = (take (size - 1) text, length text)

abbrev pub NoNul : Bytes → Type 0
NoNul [] = Unit
NoNul (c ∷ m) = (c ≢ 0) × NoNul m

pub c_str-append : (s m : Bytes) → NoNul s → c_str (s ++ 0 ∷ m) ≡ s
unfolding c_str
c_str-append [] m h = refl
c_str-append (c ∷ s) m (h, hs) = ground (arith, c_str-append s m hs)

pub c_str_whole : (s : Bytes) → NoNul s → c_str s ≡ s
unfolding c_str
c_str_whole [] h = refl
c_str_whole (c ∷ s) (h, hs) = ground (arith, c_str_whole s hs)

length-poke : (mem bs : Bytes) → length bs ≤ length mem → length (poke mem bs) ≡ length mem
unfolding poke
length-poke mem bs h =
    omega (arith, length-append bs (drop (length bs) mem), length-drop (length bs) mem)

pub snprintf_fits : (size : ℕ) (text : Bytes) → length text < size → (snprintf size text).0 ≡ text
unfolding snprintf
snprintf_fits size text h = take_of_le (size - 1) text (omega arith)

pub snprintf_exact :
    (size : ℕ) (text : Bytes) → length text < size → snprintf size text ≡ (text, length text)
unfolding snprintf
snprintf_exact size text h = cc (take_of_le (size - 1) text (omega arith))

-- What `memcpy` puts behind the first `i` bytes stands there.
pub take-poke_at :
    (mem : Bytes) (i : ℕ) (bs : Bytes)
    → i + length bs ≤ length mem
    → take (i + length bs) (poke_at mem i bs) ≡ take i mem ++ bs
unfolding poke_at
take-poke_at mem i bs h =
    let rest = drop (i + length bs) mem in
    let size : length (take i mem ++ bs) ≡ i + length bs =
      omega (arith, length-append (take i mem) bs, length-take i mem, h) in
    ap (λ l. take (i + length bs) l) (sym (append_assoc (take i mem) bs rest))
    ∙ ap (λ n. take n ((take i mem ++ bs) ++ rest)) (sym size)
    ∙ take-length (take i mem ++ bs) rest

pub length-poke_at :
    (mem : Bytes) (i : ℕ) (bs : Bytes)
    → i + length bs ≤ length mem
    → length (poke_at mem i bs) ≡ length mem
unfolding poke_at
length-poke_at mem i bs h = omega (
  arith,
  length-append (take i mem) (bs ++ drop (i + length bs) mem),
  length-take i mem,
  length-append bs (drop (i + length bs) mem),
  length-drop (i + length bs) mem,
  h,
)
