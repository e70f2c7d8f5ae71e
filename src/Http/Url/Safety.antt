-- ===== src/Http/Url/Safety.antt =====
-- What `check_path_traversal` of srclib/http.c lets through, and which path is opened for it.
use barehttp.Base.{ℕ, ◌≡◌, ◌⊎◌, ◌↔◌, inl, inr, refl, ap, ◌∙◌, arith, true, [], ◌∷◌, ◌++◌}
use barehttp.CString.{Bytes}
use barehttp.Http.Url.{backslash, check_path_traversal}

-- Two characters stand side by side in a text.
abbrev pub Adjacent : ℕ → ℕ → Bytes → Type 0
Adjacent a b s = (pre : Bytes) × (post : Bytes) × (s ≡ pre ++ a ∷ b ∷ post)

-- What the URLs are searched for: two dots, two slashes, a backslash with something behind it.
pub data Traverses (s : Bytes) : Type 0 where
  dots : Adjacent b'.' b'.' s → Traverses s
  slashes : Adjacent b'/' b'/' s → Traverses s
  backslashes : (b : ℕ) → Adjacent backslash b s → Traverses s

Adjacent-cons : (a b c : ℕ) (s : Bytes) → Adjacent a b s → Adjacent a b (c ∷ s)
Adjacent-cons a b c s (pre, post, e) = (c ∷ pre, post, ap (λ l. c ∷ l) e)

Traverses-cons : (c : ℕ) (s : Bytes) → Traverses s → Traverses (c ∷ s)
Traverses-cons c s (dots h) = dots (Adjacent-cons _ _ c s h)
Traverses-cons c s (slashes h) = slashes (Adjacent-cons _ _ c s h)
Traverses-cons c s (backslashes b h) = backslashes b (Adjacent-cons _ b c s h)

check_cases :
    (a b : ℕ) (s : Bytes)
    → check_path_traversal (a ∷ b ∷ s) ≡ true
    → ((a ≡ backslash) ⊎ ((a ≡ b'.') × (b ≡ b'.')))
      ⊎ (((a ≡ b'/') × (b ≡ b'/')) ⊎ (check_path_traversal (b ∷ s) ≡ true))
unfolding check_path_traversal
check_cases a b s h = ground arith

check_sound : (s : Bytes) → check_path_traversal s ≡ true → Traverses s
unfolding check_path_traversal
check_sound [] h = cc
check_sound (a ∷ []) h = cc
check_sound (a ∷ b ∷ s) h =
    let later : check_path_traversal (b ∷ s) ≡ true → Traverses (b ∷ s) = check_sound (b ∷ s) in
    elim (check_cases a b s h) [
      | inl (inl e) ↦ backslashes b ([], s, ap (λ c. c ∷ b ∷ s) e)
      | inl (inr (e, f)) ↦ dots ([], s, cc)
      | inr (inl (e, f)) ↦ slashes ([], s, cc)
      | inr (inr r) ↦ Traverses-cons a (b ∷ s) (later r)
    ]

check_complete :
    (pre : Bytes) (a b : ℕ) (post : Bytes)
    → check_path_traversal (a ∷ b ∷ post) ≡ true
    → check_path_traversal (pre ++ a ∷ b ∷ post) ≡ true
unfolding check_path_traversal
check_complete [] a b post h = h
check_complete (c ∷ []) a b post h = ground arith
check_complete (c ∷ d ∷ pre) a b post h = ground (arith, check_complete (d ∷ pre) a b post h)

-- The search of `check_path_traversal` finds exactly what it is for: it answers 1 if and only if the
-- URL has two dots in a row, two slashes in a row, or a backslash that is not its last character.
pub check_path_traversal_iff : (url : Bytes) → (check_path_traversal url ≡ true) ↔ Traverses url
unfolding check_path_traversal
check_path_traversal_iff url = (check_sound url, found)
  where
    at :
        (a b : ℕ)
        → ((post : Bytes) → check_path_traversal (a ∷ b ∷ post) ≡ true)
        → Adjacent a b url
        → check_path_traversal url ≡ true
    at a b h (pre, post, e) = ap check_path_traversal e ∙ check_complete pre a b post (h post)

    found : Traverses url → check_path_traversal url ≡ true
    found (dots h) = at b'.' b'.' (λ post. refl) h
    found (slashes h) = at b'/' b'/' (λ post. refl) h
    found (backslashes b h) = at backslash b (λ post. refl) h
