-- ===== src/Http/Files/Laws.antt =====
-- What `get_file_info` of srclib/http.c opens, closes and answers.
use barehttp.Base.{ℕ, ◌≡◌, arith, Bool, ◌∷◌}
use barehttp.CString.{Bytes}
use barehttp.Os.{Os, Trace}
use barehttp.Os.Traces.{sends, opens, open_count}
use barehttp.Http.Files.{safe_file, open_safe, get_file_info}

module _ (os : Os) (root_fd : ℕ) (path : Bytes) (wanted : Bool) (t : Trace) where
  abbrev after : Trace
  after = (get_file_info os root_fd path wanted t).1

  -- On every branch `get_file_info` asks for one file, below the root and through no symbolic link,
  -- leaves no descriptor open that was not open before it, and sends nothing.
  get_file_info_effects :
      (fd : ℕ)
      → (opens after ≡ safe_file root_fd path ∷ opens t)
        × (open_count fd after ≡ open_count fd t)
        × (sends fd after ≡ sends fd t)
  unfolding get_file_info open_safe opens open_count sends
  get_file_info_effects fd = ground arith

pub opens-get_file_info :
    (os : Os) (root_fd : ℕ) (path : Bytes) (wanted : Bool) (t : Trace)
    → opens (get_file_info os root_fd path wanted t).1 ≡ safe_file root_fd path ∷ opens t
opens-get_file_info os root_fd path wanted t = (get_file_info_effects os root_fd path wanted t 0).0
