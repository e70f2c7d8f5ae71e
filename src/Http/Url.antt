-- ===== src/Http/Url.antt =====
-- srclib/http.c: what is done to a URL before a file is opened (`check_path_traversal`, the search
-- for arguments in `process_get` and `process_post`, `build_path`).
pub mod Safety
pub mod Paths
use barehttp.Base.{
  ℕ, ◌-◌, Bool, true, false, ◌&&◌, List, [], ◌∷◌, ◌++◌, Option, none, some, ◌==◌, ltb,
  if◌then◌else◌, length,
}
use barehttp.CString.{Bytes, codes}
use barehttp.CString.Memory.{poke}
use barehttp.Http.{max_path}

abbrev pub backslash : ℕ
backslash = 92

-- `true` for 1. The loop looks at each character with its successor, so not at the last one alone.
unfoldable pub check_path_traversal : Bytes → Bool
check_path_traversal [] = false
check_path_traversal (a ∷ []) = false
check_path_traversal (a ∷ b ∷ s) =
    let rest = check_path_traversal (b ∷ s) in
    if a == backslash
    then true
    else (if a == b'.' && b == b'.' then true else (if a == b'/' && b == b'/' then true else rest))

-- The loop that searches for `?`: it shortens the URL to what stands in front of the first one,
-- and so ends there. The second part is `script_args`, with `none` for NULL.
unfoldable pub cut_query : Bytes → Bytes × Option Bytes
cut_query [] = ([], none)
cut_query (c ∷ s) =
    let rest = cut_query s in if c == b'?' then ([], some s) else (c ∷ rest.0, rest.1)

abbrev pub is_root : Bytes → Bool
is_root (c ∷ []) = c == b'/'
is_root _ = false

-- What the array `path` holds after the call, and `none` for the result -2.
unfoldable pub build_path : Bytes → Bytes → Option Bytes
build_path url path =
    if ltb (max_path - 1) (length url)
    then none
    else (if is_root url
        then some (poke path (codes "/index.html" ++ 0 ∷ []))
        else some (poke path (url ++ 0 ∷ [])))
