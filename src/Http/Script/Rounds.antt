-- ===== src/Http/Script/Rounds.antt =====
-- The rounds that the two loops of `process_script` in srclib/http.c need.
use barehttp.Base.{
  ℕ, zero, suc, ◌+◌, ◌-◌, ◌≡◌, ◌≤◌, ◌<◌, refl, arith, [], ◌∷◌, ◌++◌, length, length-append,
  length-drop, drop,
}
use barehttp.CString.{Bytes}
use barehttp.Os.{Os, Trace, wrote, read_from}
use barehttp.Http.{max_buffr}
use barehttp.Http.Script.Laws.{more_written, just_read}
use barehttp.Http.Script.{write_loop, read_loop}

module _ (os : Os) (fd : ℕ) where
  write_loop-enough :
      (fuel fuel' : ℕ) (rest : Bytes) (t : Trace)
      → length rest ≤ fuel
      → length rest ≤ fuel'
      → write_loop os fuel fd rest t ≡ write_loop os fuel' fd rest t
  unfolding write_loop
  write_loop-enough zero zero rest t h k = refl
  write_loop-enough zero (suc fuel') [] t h k = refl
  write_loop-enough zero (suc fuel') (c ∷ rest) t h k = absurd (omega arith)
  write_loop-enough (suc fuel) zero [] t h k = refl
  write_loop-enough (suc fuel) zero (c ∷ rest) t h k = absurd (omega arith)
  write_loop-enough (suc fuel) (suc fuel') [] t h k = refl
  write_loop-enough (suc fuel) (suc fuel') (c ∷ rest) t h k =
      let r = os.write t fd (c ∷ rest) in
      let left : Bytes = drop (more_written r) rest in
      let less : length left ≤ length rest = omega (arith, length-drop (more_written r) rest) in
      ground (
        arith,
        write_loop-enough fuel fuel' left (wrote fd (c ∷ rest) r ∷ t) (omega arith) (omega arith),
      )

  read_loop-enough :
      (fuel fuel' : ℕ) (out : Bytes) (t : Trace)
      → max_buffr < length out + fuel
      → max_buffr < length out + fuel'
      → read_loop os fuel fd out t ≡ read_loop os fuel' fd out t
  unfolding read_loop
  read_loop-enough zero zero out t h k = refl
  read_loop-enough zero (suc fuel') out t h k = ground arith
  read_loop-enough (suc fuel) zero out t h k = ground arith
  read_loop-enough (suc fuel) (suc fuel') out t h k =
      let r = os.read t fd (max_buffr - length out) in
      ground (
        arith,
        length-append out (just_read r),
        read_loop-enough fuel fuel' (out ++ just_read r)
            (read_from fd (max_buffr - length out) r ∷ t),
      )

  -- One round for each byte is enough to hand the arguments over, and one for each byte of the buffer
  -- and one more to read the output: any two numbers of rounds that reach that far give the same
  -- result and the same calls.
  pub loops-enough :
      (fuel fuel' : ℕ) (args : Bytes) (t : Trace)
      → length args ≤ fuel
      → max_buffr < fuel'
      → (write_loop os fuel fd args t ≡ write_loop os (length args) fd args t)
        × (read_loop os fuel' fd [] t ≡ read_loop os (suc max_buffr) fd [] t)
  loops-enough fuel fuel' args t h k = (
    write_loop-enough fuel (length args) args t h (omega arith),
    read_loop-enough fuel' (suc max_buffr) [] t (omega arith) (omega arith),
  )
