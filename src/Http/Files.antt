-- ===== src/Http/Files.antt =====
-- srclib/http.c: files below the root directory (`open_safe`, `get_file_info`, `send_file`).
pub mod Laws
pub mod Transfer
use barehttp.Base.{
  ℕ, zero, suc, ◌+◌, ◌-◌, Bool, true, false, ◌==◌, ltb, if◌then◌else◌, ℤ, pos, minus_one, minus_two,
  minus_three, drop,
}
use barehttp.CString.{Bytes, to_int}
use barehttp.CString.Memory.{c_str}
use barehttp.Os.{
  Os, M, pure, call, ◌>>=◌, ◌>>◌, Result, ok, err, Resolve, opened, closed, statted, sent_file,
  eacces, eloop, enoent,
}
use barehttp.Os.Traces.{Asked}
use barehttp.Tcp.{close}

-- `RESOLVE_BENEATH | RESOLVE_NO_SYMLINKS`.
abbrev pub safe : Resolve
safe = record { beneath = true; no_symlinks = true }

-- `requested_path` is the memory from the start of the array `path`; one character is skipped.
abbrev pub relative : Bytes → Bytes
relative requested_path = c_str (drop 1 requested_path)

-- What `open_safe` asks for.
abbrev pub safe_file : ℕ → Bytes → Asked
safe_file root_fd requested_path = (root_fd, relative requested_path, safe)

-- The result of `get_file_info` for the `errno` of a failed open.
abbrev pub open_error : ℕ → ℤ
open_error e =
    if e == eacces
    then minus_three
    else (if e == eloop then minus_three else (if e == enoent then minus_two else minus_one))

module _ (os : Os) where
  unfoldable pub open_safe : ℕ → Bytes → M (Result ℕ)
  open_safe root_fd requested_path =
      call (λ t. os.openat2 t root_fd (relative requested_path) safe)
        (opened root_fd (relative requested_path) safe)

  -- The result, and what is stored through `file_size` and `last_modified`: 0 stands where nothing
  -- is. `wanted` is false where both pointers are NULL. `file_size` is an `int`.
  unfoldable pub get_file_info : ℕ → Bytes → Bool → M (ℤ × ℤ × ℕ)
  get_file_info root_fd requested_path wanted = do
    f ← open_safe root_fd requested_path
    elim f [
      | err e ↦ pure (open_error e, pos 0, 0)
      | ok fd ↦
          if wanted
          then (do
            st ← call (λ t. os.fstat t fd) (statted fd)
            elim st [
              | err _ ↦ do close os fd; pure (minus_one, pos 0, 0)
              | ok st ↦ do close os fd; pure (pos 0, to_int st.st_size, st.st_mtime)
            ])
          else (do close os fd; pure (pos 0, pos 0, 0))
    ]

  -- The loop of `send_file`; the result is `offset` when it ends. A round that goes on sends a byte
  -- at least, so `st_size - offset` rounds are enough.
  unfoldable pub send_loop : ℕ → ℕ → ℕ → ℕ → ℕ → M ℕ
  send_loop zero clientfd fd st_size offset = pure offset
  send_loop (suc fuel) clientfd fd st_size offset =
      if ltb offset st_size
      then (do
        n ←
            call (λ t. os.sendfile t clientfd fd offset (st_size - offset))
              (sent_file clientfd fd offset (st_size - offset))
        elim n [
          | err _ ↦ pure offset
          | ok zero ↦ pure offset
          | ok (suc k) ↦ send_loop fuel clientfd fd st_size (offset + suc k)
        ])
      else pure offset

  unfoldable pub send_file : ℕ → Bytes → ℕ → M ℤ
  send_file root_fd requested_path clientfd = do
    f ← open_safe root_fd requested_path
    elim f [
      | err _ ↦ pure minus_one
      | ok fd ↦ do
        st ← call (λ t. os.fstat t fd) (statted fd)
        elim st [
          | err _ ↦ do close os fd; pure minus_one
          | ok st ↦ do
            offset ← send_loop st.st_size clientfd fd st.st_size 0
            if ltb offset st.st_size then pure minus_one else (do close os fd; pure (pos 0))
        ]
    ]
