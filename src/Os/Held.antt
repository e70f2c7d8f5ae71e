-- ===== src/Os/Held.antt =====
-- How often a trace holds a resource: allocated or opened, and not freed since.
use barehttp.Os.Traces.{effects}
use barehttp.Base.{
  sym, ap, ◌∙◌, ℕ, ◌+◌, ◌-◌, ◌≡◌, refl, arith, Bool, true, [], ◌∷◌, ◌==◌, if◌then◌else◌,
}
use barehttp.Os.{
  Event, acquired, released, Resource, conf_memory, log_memory, log_stream, queue_memory,
  events_memory, threads_memory, args_memory, request_memory, Trace,
}

-- A number for each resource, to compare them by.
abbrev resource_id : Resource → ℕ
resource_id conf_memory = 0
resource_id log_memory = 1
resource_id log_stream = 2
resource_id queue_memory = 3
resource_id events_memory = 4
resource_id threads_memory = 5
resource_id args_memory = 6
resource_id request_memory = 7

abbrev pub is_resource : Resource → Resource → Bool
is_resource r s = resource_id r == resource_id s

abbrev count_held : Resource → Event → ℕ → ℕ
count_held r (acquired s true) n = if is_resource s r then n + 1 else n
count_held r (released s) n = if is_resource s r then n - 1 else n
count_held r e n = n

unfoldable pub held : Resource → Trace → ℕ
held r [] = 0
held r (e ∷ t) = count_held r e (held r t)

abbrev cons_resource : Event → Trace → Trace
cons_resource (acquired r b) t = acquired r b ∷ t
cons_resource (released r) t = released r ∷ t
cons_resource e t = t

-- The allocations and what frees them, newest first.
unfoldable pub resources : Trace → Trace
resources [] = []
resources (e ∷ t) = cons_resource e (resources t)

pub held-resources : (r : Resource) (t : Trace) → held r (resources t) ≡ held r t
unfolding held resources
held-resources r [] = refl
held-resources r (e ∷ t) = ground (arith, held-resources r t)

resources-effects : (t : Trace) → resources (effects t) ≡ resources t
unfolding resources effects
resources-effects [] = refl
resources-effects (e ∷ t) = ground (arith, resources-effects t)

-- A change in nothing but the log file is none in these.
pub resources_of_effects : (t u : Trace) → effects u ≡ effects t → resources u ≡ resources t
resources_of_effects t u e = sym (resources-effects u) ∙ ap resources e ∙ resources-effects t
