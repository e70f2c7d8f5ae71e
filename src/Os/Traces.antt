-- ===== src/Os/Traces.antt =====
-- What a trace shows of the calls in it.
use barehttp.Base.{ℕ, ◌+◌, ◌-◌, ◌≡◌, refl, sym, ap, ◌∙◌, arith, List, [], ◌∷◌, ◌==◌, if◌then◌else◌}
use barehttp.CString.{Bytes}
use barehttp.Os.{
  Event, told_time, named_peer, locked_log, unlocked_log, logged, opened, closed, sent, piped, ok,
  Resolve, Trace,
}

-- A call that changes nothing outside the log file.
abbrev cons_effect : Event → Trace → Trace
cons_effect (told_time _) t = t
cons_effect (named_peer _ _) t = t
cons_effect locked_log t = t
cons_effect unlocked_log t = t
cons_effect (logged _ _) t = t
cons_effect e t = e ∷ t

-- The trace without the log, and without the calls that ask for the time and for a client's name.
unfoldable pub effects : Trace → Trace
effects [] = []
effects (e ∷ t) = cons_effect e (effects t)

-- What was logged, newest first, whether or not the write succeeded.
abbrev cons_log : Event → Trace → Trace
cons_log locked_log t = locked_log ∷ t
cons_log unlocked_log t = unlocked_log ∷ t
cons_log (logged b r) t = logged b r ∷ t
cons_log e t = t

unfoldable pub log_trace : Trace → Trace
log_trace [] = []
log_trace (e ∷ t) = cons_log e (log_trace t)

abbrev one_if : ℕ → ℕ → ℕ
one_if a b = if a == b then 1 else 0

-- By how much an event changes how often a descriptor stands open.
abbrev count_event : ℕ → Event → ℕ → ℕ
count_event fd (opened _ _ _ (ok g)) n = n + one_if g fd
count_event fd (piped (ok (a, b))) n = n + one_if a fd + one_if b fd
count_event fd (closed g _) n = n - one_if g fd
count_event fd e n = n

-- How often the calls of a trace have opened a descriptor and not closed it since.
unfoldable pub open_count : ℕ → Trace → ℕ
open_count fd [] = 0
open_count fd (e ∷ t) = count_event fd e (open_count fd t)

abbrev cons_send : ℕ → Event → List Bytes → List Bytes
cons_send fd (sent g bs _) l = if g == fd then bs ∷ l else l
cons_send fd e l = l

-- What was handed to `send` on a descriptor, newest first, whatever the call answered.
unfoldable pub sends : ℕ → Trace → List Bytes
sends fd [] = []
sends fd (e ∷ t) = cons_send fd e (sends fd t)

-- A call of `openat2`: the directory, the path and the bits.
abbrev pub Asked : Type 0
Asked = ℕ × Bytes × Resolve

abbrev cons_open : Event → List Asked → List Asked
cons_open (opened root path resolve _) l = (root, path, resolve) ∷ l
cons_open e l = l

-- The files that were asked for, newest first.
unfoldable pub opens : Trace → List Asked
opens [] = []
opens (e ∷ t) = cons_open e (opens t)

-- These three look at effects only.
sends-effects : (fd : ℕ) (t : Trace) → sends fd (effects t) ≡ sends fd t
unfolding sends effects
sends-effects fd [] = refl
sends-effects fd (e ∷ t) = ground (arith, sends-effects fd t)

opens-effects : (t : Trace) → opens (effects t) ≡ opens t
unfolding opens effects
opens-effects [] = refl
opens-effects (e ∷ t) = ground (arith, opens-effects t)

open_count-effects : (fd : ℕ) (t : Trace) → open_count fd (effects t) ≡ open_count fd t
unfolding open_count effects
open_count-effects fd [] = refl
open_count-effects fd (e ∷ t) = ground (arith, open_count-effects fd t)

-- So what changes no effect changes nothing that they see.
module _ (t u : Trace) (e : effects u ≡ effects t) where
  pub sends_of_effects : (fd : ℕ) → sends fd u ≡ sends fd t
  sends_of_effects fd = sym (sends-effects fd u) ∙ ap (sends fd) e ∙ sends-effects fd t

  pub opens_of_effects : opens u ≡ opens t
  opens_of_effects = sym (opens-effects u) ∙ ap opens e ∙ opens-effects t

  pub open_count_of_effects : (fd : ℕ) → open_count fd u ≡ open_count fd t
  open_count_of_effects fd =
      sym (open_count-effects fd u) ∙ ap (open_count fd) e ∙ open_count-effects fd t
