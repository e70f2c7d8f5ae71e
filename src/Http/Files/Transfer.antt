-- ===== src/Http/Files/Transfer.antt =====
-- `send_file` of srclib/http.c: how much it transfers, when it ends, and what it leaves open.
use barehttp.Base.{
  ℕ, zero, suc, ◌+◌, ◌-◌, ◌≡◌, ◌≤◌, ◌<◌, ◌⊎◌, inl, refl, arith, [], ◌∷◌, ℤ, pos, minus_one, ◌==◌,
  if◌then◌else◌, ==_refl,
}
use barehttp.CString.{Bytes}
use barehttp.Os.{Os, Trace, Event, Result, ok, err, opened, statted, Stat, sent_file}
use barehttp.Os.Traces.{sends, opens, open_count}
use barehttp.Http.Files.{safe, relative, safe_file, open_safe, send_loop, send_file}

abbrev count_sent : ℕ → Event → ℕ → ℕ
count_sent fd (sent_file g _ _ _ (ok n)) k = if g == fd then k + n else k
count_sent fd e k = k

-- How many bytes the answers of `sendfile` say went to a descriptor.
unfoldable pub transferred : ℕ → Trace → ℕ
transferred fd [] = 0
transferred fd (e ∷ t) = count_sent fd e (transferred fd t)

-- The newest call was a `sendfile` that sent nothing.
abbrev pub Refused : Trace → Type 0
Refused (sent_file _ _ _ _ (err _) ∷ t) = Unit
Refused (sent_file _ _ _ _ (ok zero) ∷ t) = Unit
Refused _ = ⊥

module _ (os : Os) where
  -- What Linux documents of `sendfile`: it sends no more than it is asked to.
  unfoldable pub IsBounded : Type 0
  IsBounded =
      (t : Trace) (out fd offset count n : ℕ) → os.sendfile t out fd offset count ≡ ok n → n ≤ count

  pub send_loop-open_count :
      (fuel c fd size off g : ℕ) (t : Trace)
      → open_count g (send_loop os fuel c fd size off t).1 ≡ open_count g t
  unfolding send_loop open_count
  send_loop-open_count zero c fd size off g t = refl
  send_loop-open_count (suc fuel) c fd size off g t = grind (arith, send_loop-open_count fuel)

  -- The answer of the next `sendfile`, the offset and the trace that it leads to.
  abbrev answer : ℕ → ℕ → ℕ → ℕ → Trace → Result ℕ
  answer c fd size off t = os.sendfile t c fd off (size - off)

  abbrev offset_next : ℕ → ℕ → ℕ → ℕ → Trace → ℕ
  offset_next c fd size off t =
      off + count_sent c (sent_file c fd off (size - off) (answer c fd size off t)) 0

  abbrev trace_next : ℕ → ℕ → ℕ → ℕ → Trace → Trace
  trace_next c fd size off t = sent_file c fd off (size - off) (answer c fd size off t) ∷ t

  send_loop-transferred :
      (fuel c fd size off : ℕ) (t : Trace)
      → transferred c (send_loop os fuel c fd size off t).1 + off
        ≡ transferred c t + (send_loop os fuel c fd size off t).0
  unfolding send_loop transferred
  send_loop-transferred zero c fd size off t = refl
  send_loop-transferred (suc fuel) c fd size off t = ground (
    arith,
    ==_refl c,
    send_loop-transferred fuel c fd size (offset_next c fd size off t) (trace_next c fd size off t),
  )

  -- With as much fuel as there are bytes left, the loop has sent them all or was refused.
  send_loop_ends :
      (fuel c fd size off : ℕ) (t : Trace)
      → size ≤ off + fuel
      → (size ≤ (send_loop os fuel c fd size off t).0)
        ⊎ Refused (send_loop os fuel c fd size off t).1
  unfolding send_loop
  send_loop_ends zero c fd size off t h = inl (omega arith)
  send_loop_ends (suc fuel) c fd size off t h = ground (
    arith,
    ==_refl c,
    send_loop_ends fuel c fd size (offset_next c fd size off t) (trace_next c fd size off t),
  )

  offset_next-le :
      (c fd size off : ℕ) (t : Trace) → IsBounded → offset_next c fd size off t ≤ off + (size - off)
  unfolding IsBounded
  offset_next-le c fd size off t b = go (answer c fd size off t) refl
    where
      go :
          (r : Result ℕ)
          → answer c fd size off t ≡ r
          → off + count_sent c (sent_file c fd off (size - off) r) 0 ≤ off + (size - off)
      go (ok n) e = ground (arith, b t c fd off (size - off) n e)
      go (err _) e = omega arith

  send_loop-le :
      (fuel c fd size off : ℕ) (t : Trace)
      → IsBounded
      → off ≤ size
      → (send_loop os fuel c fd size off t).0 ≤ size
  unfolding send_loop IsBounded
  send_loop-le zero c fd size off t b h = h
  send_loop-le (suc fuel) c fd size off t b h = ground (
    arith,
    ==_refl c,
    offset_next-le c fd size off t b,
    send_loop-le fuel c fd size (offset_next c fd size off t) (trace_next c fd size off t) b,
  )

  send_loop-opens :
      (fuel c fd size off : ℕ) (t : Trace) → opens (send_loop os fuel c fd size off t).1 ≡ opens t
  unfolding send_loop opens
  send_loop-opens zero c fd size off t = refl
  send_loop-opens (suc fuel) c fd size off t = ground (
    arith,
    ==_refl c,
    send_loop-opens fuel c fd size (offset_next c fd size off t) (trace_next c fd size off t),
  )

  send_loop-sends :
      (fuel c fd size off g : ℕ) (t : Trace)
      → sends g (send_loop os fuel c fd size off t).1 ≡ sends g t
  unfolding send_loop sends
  send_loop-sends zero c fd size off g t = refl
  send_loop-sends (suc fuel) c fd size off g t = grind (arith, send_loop-sends fuel)

  -- `send_file` asks for one file, below the root and through no symbolic link, and hands nothing
  -- to `send`.
  pub opens-send_file :
      (root_fd : ℕ) (path : Bytes) (clientfd : ℕ) (t : Trace)
      → opens (send_file os root_fd path clientfd t).1 ≡ safe_file root_fd path ∷ opens t
  unfolding send_file open_safe opens
  opens-send_file root_fd path clientfd t = grind (arith, send_loop-opens)

  pub sends-send_file :
      (root_fd : ℕ) (path : Bytes) (clientfd g : ℕ) (t : Trace)
      → sends g (send_file os root_fd path clientfd t).1 ≡ sends g t
  unfolding send_file open_safe sends
  sends-send_file root_fd path clientfd g t = grind (arith, send_loop-sends)

  module _ (root_fd : ℕ) (path : Bytes) (clientfd : ℕ) (t : Trace) (fd : ℕ) (st : Stat) where
    abbrev after : ℤ × Trace
    after = send_file os root_fd path clientfd t

    abbrev before_loop : Trace
    before_loop = statted fd (ok st) ∷ opened root_fd (relative path) safe (ok fd) ∷ t

    -- Where the file opens and its size is told, `send_file` either answers 0, has transferred
    -- exactly as many bytes as the file has, and leaves open what was open before; or it answers
    -- -1, has transferred fewer, and leaves the file's descriptor open once more than before.
    pub send_file_lem :
        IsBounded
        → os.openat2 t root_fd (relative path) safe ≡ ok fd
        → os.fstat (opened root_fd (relative path) safe (ok fd) ∷ t) fd ≡ ok st
        → ((after.0 ≡ pos 0)
            × (transferred clientfd after.1 ≡ transferred clientfd t + st.st_size)
            × (open_count fd after.1 ≡ open_count fd t))
          ⊎ ((after.0 ≡ minus_one)
              × (transferred clientfd after.1 < transferred clientfd t + st.st_size)
              × (open_count fd after.1 ≡ open_count fd t + 1))
    unfolding send_file open_safe transferred open_count
    send_file_lem b f s = ground (
      arith,
      ==_refl fd,
      send_loop-open_count st.st_size clientfd fd st.st_size 0 fd before_loop,
      send_loop-transferred st.st_size clientfd fd st.st_size 0 before_loop,
      send_loop-le st.st_size clientfd fd st.st_size 0 before_loop b,
    )
