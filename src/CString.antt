-- ===== src/CString.antt =====
-- The functions of the C library that the sources use on characters and strings. Characters are
-- numbers; a string is the list of its characters, without the terminating NUL.
pub mod Format
pub mod Memory
mod Examples
use Prim.Native.Char.{code}
use Prim.Native.String
use barehttp.Base.{
  ℕ, suc, ◌+◌, ◌-◌, ◌*◌, ◌%◌, ◌^◌, Bool, true, false, ◌&&◌, ◌||◌, List, [], ◌∷◌, ◌++◌, String,
  Option, none, some, ◌==◌, leb, ltb, if◌then◌else◌, ℤ, pos, negsuc,
}

abbrev pub Bytes : Type 0
Bytes = List ℕ

-- The characters of a literal. All literals of the program are ASCII.
unfoldable pub codes : String → Bytes
codes String.[] = []
codes (String.◌∷◌ c s) = code c ∷ codes s

-- `strcmp (a, b) == 0`, and `memcmp` of two memories of the same size.
unfoldable pub str_eq : Bytes → Bytes → Bool
str_eq [] [] = true
str_eq (x ∷ xs) (y ∷ ys) = if x == y then str_eq xs ys else false
str_eq _ _ = false

-- `strrchr (s, c) + 1`: what follows the last `c`, and `none` for NULL.
unfoldable pub after_last : ℕ → Bytes → Option Bytes
after_last c [] = none
after_last c (x ∷ xs) =
    let rest = after_last c xs in
    elim rest [ some t ↦ some t | none ↦ (if x == c then some xs else none) ]

unfoldable pub is_digit : ℕ → Bool
is_digit c = if leb b'0' c then leb c b'9' else false

-- The digits that `atoi` reads, as a number, from the value that stands so far.
unfoldable pub digits_from : ℕ → Bytes → ℕ
unfolding is_digit
digits_from acc [] = acc
digits_from acc (c ∷ s) =
    let rest = digits_from (acc * 10 + (c - b'0')) s in if is_digit c then rest else acc

-- `isspace` in the C locale.
unfoldable is_space : ℕ → Bool
is_space c = if c == b' ' then true else (if leb 9 c then leb c 13 else false)

unfoldable pub skip_space : Bytes → Bytes
unfolding is_space
skip_space [] = []
skip_space (c ∷ s) = let rest = skip_space s in if is_space c then rest else c ∷ s

-- An `int` that holds the low 32 bits of a number, or of its negation.
unfoldable pub to_int : ℕ → ℤ
to_int n = let r = n % 2 ^ 32 in if ltb r (2 ^ 31) then pos r else negsuc (2 ^ 32 - r - 1)

unfoldable to_int_neg : ℕ → ℤ
unfolding to_int
to_int_neg n = to_int (2 ^ 32 - n % 2 ^ 32)

abbrev signed : Bytes → ℤ
signed [] = pos 0
signed (c ∷ s) =
    if c == b'-'
    then to_int_neg (digits_from 0 s)
    else (if c == b'+' then to_int (digits_from 0 s) else to_int (digits_from 0 (c ∷ s)))

-- `atoi`, as the GNU library has it: `(int) strtol (s, NULL, 10)`. The texts that the program hands
-- it have 15 characters at most, which `strtol` holds.
unfoldable pub atoi : Bytes → ℤ
unfolding skip_space digits_from to_int to_int_neg
atoi s = signed (skip_space s)
