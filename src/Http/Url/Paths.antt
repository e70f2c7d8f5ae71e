-- ===== src/Http/Url/Paths.antt =====
-- The path that srclib/http.c opens for a URL: the work of `build_path` and of the loop that looks
-- for `?`, and the character that `open_safe` skips.
use mathlib.Core.Path.{subst}
use native.Mathlib.Decide.{dec_lt}
use barehttp.Base.{
  ℕ, suc, ◌<◌, ◌≡◌, ◌≢◌, inl, inr, refl, sym, ap, ◌∙◌, arith, true, false, [], ◌∷◌, ◌++◌, Option,
  none, some, ◌==◌, if◌then◌else◌, append_assoc, append-nil, Bool-cases, le→ltb_false, lt→ltb,
  length, drop,
}
use barehttp.CString.{Bytes, codes}
use barehttp.CString.Memory.{c_str, poke, NoNul, c_str-append}
use barehttp.Http.Url.{check_path_traversal, cut_query, is_root, build_path}
use barehttp.Http.Url.Safety.{Adjacent, Traverses, dots, slashes, check_path_traversal_iff}
use barehttp.Http.Files.{relative}

-- No question mark stands in a text.
abbrev NoQuery : Bytes → Type 0
NoQuery [] = Unit
NoQuery (c ∷ s) = (c ≢ b'?') × NoQuery s

-- What the loop of `process_get` makes of a URL.
abbrev IsCut : Bytes → Bytes × Option Bytes → Type 0
IsCut url (path, none) = (url ≡ path) × NoQuery path
IsCut url (path, some args) = (url ≡ path ++ b'?' ∷ args) × NoQuery path

IsCut-cons :
    (c : ℕ) (s : Bytes) (r : Bytes × Option Bytes)
    → c ≢ b'?'
    → IsCut s r
    → IsCut (c ∷ s) (c ∷ r.0, r.1)
IsCut-cons c s (path, none) h (e, q) = (ap (λ l. c ∷ l) e, (h, q))
IsCut-cons c s (path, some args) h (e, q) = (ap (λ l. c ∷ l) e, (h, q))

-- The search for arguments splits the URL at its first question mark: the path in front has none,
-- and with the arguments behind it makes up the URL; a URL with no question mark is all path.
cut_query-IsCut : (url : Bytes) → IsCut url (cut_query url)
unfolding cut_query
cut_query-IsCut [] = (refl, tt)
cut_query-IsCut (c ∷ s) = elim (Bool-cases (c == b'?')) [
  | inl e ↦ rw e (ap (λ d. d ∷ s) (ground arith), tt)
  | inr e ↦ rw e (IsCut-cons c s (cut_query s) (ground arith) (cut_query-IsCut s))
]

cut_prefix : (url : Bytes) → (r : Bytes) × (url ≡ (cut_query url).0 ++ r)
cut_prefix url = go (cut_query url) (cut_query-IsCut url)
  where
    go : (r : Bytes × Option Bytes) → IsCut url r → (t : Bytes) × (url ≡ r.0 ++ t)
    go (path, none) h = ([], h.0 ∙ sym (append-nil path))
    go (path, some args) h = (b'?' ∷ args, h.0)

-- A string in memory is the start of the characters before a NUL.
c_str_prefix : (s m : Bytes) → (r : Bytes) × (s ≡ c_str (s ++ 0 ∷ m) ++ r)
unfolding c_str
c_str_prefix [] m = ([], refl)
c_str_prefix (c ∷ s) m = elim (Bool-cases (c == 0)) [
  | inl e ↦ rw e (c ∷ s, refl)
  | inr e ↦ rw e (let (r, h) = c_str_prefix s m in (r, ap (λ l. c ∷ l) h))
]

-- The string opened for a path that `build_path` has copied, of which the first character is `c`.
relative_copied :
    (c : ℕ) (s array : Bytes)
    → (m : Bytes) × (relative (poke array ((c ∷ s) ++ 0 ∷ [])) ≡ c_str (s ++ 0 ∷ m))
unfolding poke
relative_copied c s array = (_, ap c_str (append_assoc s (0 ∷ []) _))

relative_index :
    (array : Bytes) → relative (poke array (codes "/index.html" ++ 0 ∷ [])) ≡ codes "index.html"
unfolding poke codes c_str
relative_index array = refl

NoNul-prefix : (p r : Bytes) → NoNul (p ++ r) → NoNul p
NoNul-prefix [] r h = tt
NoNul-prefix (c ∷ p) r (n, h) = (n, NoNul-prefix p r h)

-- What `build_path` leaves for a path that starts with a slash and fits.
build_slash :
    (p array : Bytes)
    → suc (length p) < 132
    → (built : Bytes) × (m : Bytes) × (build_path (b'/' ∷ p) array ≡ some built)
      × (relative built ≡ (if is_root (b'/' ∷ p) then codes "index.html" else c_str (p ++ 0 ∷ m)))
unfolding build_path
build_slash [] array h = (_, [], refl, relative_index array)
build_slash (c ∷ p) array h =
    let (m, e) = relative_copied b'/' (c ∷ p) array in
    (
      poke array ((b'/' ∷ c ∷ p) ++ 0 ∷ []),
      m,
      rw (le→ltb_false 131 (length (b'/' ∷ c ∷ p)) (omega arith)),
      e,
    )

-- For a URL that starts with a slash and holds no NUL, and whose path is not longer than 131
-- characters, the file that is asked for is index.html where the path is a slash alone, and
-- otherwise the path without its first slash.
pub build_path_opens :
    (s array : Bytes)
    → NoNul s
    → length (cut_query (b'/' ∷ s)).0 < 132
    → let path = (cut_query (b'/' ∷ s)).0 in
      (built : Bytes) × (build_path path array ≡ some built)
      × (relative built ≡ (if is_root path then codes "index.html" else drop 1 path))
unfolding cut_query
build_path_opens s array n h =
    let (r, e) = cut_prefix s in
    let (built, m, b, f) = build_slash (cut_query s).0 array h in
    let clean : NoNul (cut_query s).0 = NoNul-prefix _ r (subst NoNul e n) in
    (
      built,
      b,
      f
          ∙ ap (λ p. if is_root (b'/' ∷ (cut_query s).0) then codes "index.html" else p)
              (c_str-append (cut_query s).0 m clean),
    )

Adjacent-infix : (a b : ℕ) (x s y : Bytes) → Adjacent a b s → Adjacent a b (x ++ (s ++ y))
Adjacent-infix a b x s y (pre, post, e) = (
  x ++ pre,
  post ++ y,
  ap (λ l. x ++ (l ++ y)) e
      ∙ ap (λ l. x ++ l) (append_assoc pre (a ∷ b ∷ post) y)
      ∙ sym (append_assoc x pre _),
)

-- A path that stays below the directory that it is opened in.
abbrev pub StaysBelow : Bytes → Type 0
StaysBelow p = (¬ Adjacent b'.' b'.' p) × ((r : Bytes) → p ≢ b'/' ∷ r)

not-Traverses : (url : Bytes) → check_path_traversal url ≡ false → ¬ Traverses url
not-Traverses url h t =
    let e : check_path_traversal url ≡ true = (check_path_traversal_iff url).1 t in cc

-- The start of what follows the slash of a URL that passes the check.
StaysBelow-start :
    (s q y : Bytes) → s ≡ q ++ y → check_path_traversal (b'/' ∷ s) ≡ false → StaysBelow q
StaysBelow-start s q y e c = (no_dots, no_slash)
  where
    no_dots : ¬ Adjacent b'.' b'.' q
    no_dots a = not-Traverses (b'/' ∷ s) c (
        dots (
          subst (λ u. Adjacent b'.' b'.' (b'/' ∷ u)) (sym e)
            (Adjacent-infix b'.' b'.' (b'/' ∷ []) q y a)))

    no_slash : (r : Bytes) → q ≢ b'/' ∷ r
    no_slash r f =
        not-Traverses (b'/' ∷ s) c
          (slashes ([], r ++ y, ap (λ u. b'/' ∷ u) (e ∙ ap (λ l. l ++ y) f)))

StaysBelow-index : StaysBelow (codes "index.html")
unfolding codes check_path_traversal
StaysBelow-index = (λ a. not-Traverses (codes "index.html") refl (dots a), λ r e. cc)

StaysBelow-built :
    (p r : Bytes) (m : Bytes)
    → check_path_traversal (b'/' ∷ (p ++ r)) ≡ false
    → StaysBelow (if is_root (b'/' ∷ p) then codes "index.html" else c_str (p ++ 0 ∷ m))
StaysBelow-built [] r m c = StaysBelow-index
StaysBelow-built (d ∷ p) r m c =
    let (y, e) = c_str_prefix (d ∷ p) m in
    StaysBelow-start ((d ∷ p) ++ r) (c_str ((d ∷ p) ++ 0 ∷ m)) (y ++ r)
      (ap (λ l. l ++ r) e ∙ append_assoc (c_str ((d ∷ p) ++ 0 ∷ m)) y r) c

-- Whatever the array held before, for a URL that starts with a slash and passes the check the path
-- that is asked for has no two dots in a row and does not start with a slash.
pub opened_path_safe :
    (s array built : Bytes)
    → check_path_traversal (b'/' ∷ s) ≡ false
    → build_path (cut_query (b'/' ∷ s)).0 array ≡ some built
    → StaysBelow (relative built)
unfolding cut_query build_path
opened_path_safe s array built c e = elim (dec_lt (suc (length (cut_query s).0)) 132) [
  | yes h ↦
      let (r, split) = cut_prefix s in
      let (built', m, b, f) = build_slash (cut_query s).0 array h in
      let same : built ≡ built' = cc in
      subst StaysBelow (sym (ap relative same ∙ f)) (
        StaysBelow-built (cut_query s).0 r m
          (subst (λ u. check_path_traversal (b'/' ∷ u) ≡ false) split c))
  | no h ↦ absurd (too_long (omega arith))
]
  where
    too_long : 131 < suc (length (cut_query s).0) → ⊥
    too_long h = let n : none ≡ some built = sym (rw (lt→ltb 131 _ h)) ∙ e in cc
