-- ===== src/Os/Pending.antt =====
-- Which of the connections that a trace shows as accepted have not been closed since.
use barehttp.Base.{
  ℕ, ◌≡◌, refl, sym, ap, ◌∙◌, Bool, true, false, [], ◌∷◌, ◌==◌, if◌then◌else◌, arith,
}
use barehttp.Os.Traces.{effects}
use barehttp.CString.{Bytes}
use barehttp.Os.{Os, Resolve, Event, accepted, closed, ok, Trace}

abbrev cons_pending : ℕ → Event → Bool → Bool
cons_pending fd (accepted _ (ok g)) b = if g == fd then true else b
cons_pending fd (closed g _) b = if g == fd then false else b
cons_pending fd e b = b

unfoldable pub pending : ℕ → Trace → Bool
pending fd [] = false
pending fd (e ∷ t) = cons_pending fd e (pending fd t)

-- The system hands out no descriptor that is an accepted connection and has not been closed.
pub record HasFreshFds (os : Os) : Type 0 where
  pub socket_fresh : (t : Trace) (fd : ℕ) → os.socket t ≡ ok fd → pending fd t ≡ false
  pub accept_fresh : (t : Trace) (s fd : ℕ) → os.accept t s ≡ ok fd → pending fd t ≡ false
  pub open_fresh :
      (t : Trace) (root : ℕ) (path : Bytes) (how : Resolve) (fd : ℕ)
      → os.openat2 t root path how ≡ ok fd
      → pending fd t ≡ false
  pub pipe_fresh :
      (t : Trace) (ends : ℕ × ℕ)
      → os.pipe t ≡ ok ends
      → (pending ends.0 t ≡ false) × (pending ends.1 t ≡ false)

pending-effects : (fd : ℕ) (t : Trace) → pending fd (effects t) ≡ pending fd t
unfolding pending effects
pending-effects fd [] = refl
pending-effects fd (e ∷ t) = ground (arith, pending-effects fd t)

-- What changes no effect leaves the same connections.
pub pending_of_effects :
    (fd : ℕ) (t u : Trace) → effects u ≡ effects t → pending fd u ≡ pending fd t
pending_of_effects fd t u e = sym (pending-effects fd u) ∙ ap (pending fd) e ∙ pending-effects fd t
