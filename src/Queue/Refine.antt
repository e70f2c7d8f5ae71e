-- ===== src/Queue/Refine.antt =====
-- srclib/queue.c behaves as a first-in first-out list of descriptors of bounded length.
use native.Mathlib.Nat.{mod-add-mod, mod-eq_of_lt, mod-eq-sub-mod, add-zero}
use native.Mathlib.Numerals.{add-one}
use mathlib.Core.Path.{ap₂}
use native.Mathlib.Decide.{dec_lt}
use barehttp.Base.{
  ℕ, zero, suc, ◌+◌, ◌-◌, ◌%◌, ◌≤◌, ◌<◌, ◌≡◌, ◌≢◌, ◌⊎◌, inl, inr, refl, ap, sym, ◌∙◌, Bool, arith,
  List, [], ◌∷◌, ◌++◌, ◌==◌, if◌then◌else◌, length, get_or, set, get_or-set_self, get_or-set_ne,
}
use barehttp.Queue.{Queue, Turn, wait, leave, done, queue_push, queue_pop}
use barehttp.Queue.Inv.{IsValid, in_bounds}

-- `f i, f (i + 1), …`, `n` values.
tabulate : (ℕ → ℕ) → ℕ → ℕ → List ℕ
tabulate f i zero = []
tabulate f i (suc n) = f i ∷ tabulate f (i + 1) n

-- The descriptor that is `k` places behind the oldest one.
abbrev slot : Queue → ℕ → ℕ
slot q k = get_or q.fds ((q.front + k) % q.max_size) 0

-- The waiting descriptors, oldest first.
unfoldable pub contents : Queue → List ℕ
unfolding tabulate
contents q = tabulate (slot q) 0 q.size

-- The abstract queue: what a push and a pop do to the list of waiting descriptors.
abbrev pub fifo_push : ℕ → List ℕ → ℕ → Bool → Turn (List ℕ)
fifo_push cap l fd sigint =
    if length l == cap
    then (if sigint then leave else wait)
    else (if sigint then leave else done (l ++ fd ∷ []))

abbrev pub fifo_pop : List ℕ → Bool → Turn (ℕ × List ℕ)
fifo_pop [] sigint = if sigint then leave else wait
fifo_pop (fd ∷ l) sigint = if sigint then leave else done (fd, l)

-- A turn on a queue, seen through its contents.
abbrev pub view_push : Turn Queue → Turn (List ℕ)
view_push wait = wait
view_push leave = leave
view_push (done q) = done (contents q)

abbrev pub view_pop : Turn (ℕ × Queue) → Turn (ℕ × List ℕ)
view_pop wait = wait
view_pop leave = leave
view_pop (done (fd, q)) = done (fd, contents q)

length-tabulate : (f : ℕ → ℕ) (i n : ℕ) → length (tabulate f i n) ≡ n
unfolding tabulate
length-tabulate f i zero = refl
length-tabulate f i (suc n) = ap suc (length-tabulate f (i + 1) n)

length-contents : (q : Queue) → length (contents q) ≡ q.size
unfolding contents
length-contents q = length-tabulate (slot q) 0 q.size

pub contents-active : (q : Queue) (a : List ℕ) → contents (record q { active_fds = a }) ≡ contents q
unfolding contents
contents-active q a = refl

tabulate_snoc : (f : ℕ → ℕ) (i n : ℕ) → tabulate f i (suc n) ≡ tabulate f i n ++ f (i + n) ∷ []
unfolding tabulate
tabulate_snoc f i zero = ap (λ k. f k ∷ []) (omega arith)
tabulate_snoc f i (suc n) =
    ap (λ l. f i ∷ l)
      (tabulate_snoc f (i + 1) n ∙ ap (λ k. tabulate f (i + 1) n ++ f k ∷ []) (omega arith))

tabulate_eq :
    (f g : ℕ → ℕ) (i j n : ℕ)
    → ((k : ℕ) → k < n → f (i + k) ≡ g (j + k))
    → tabulate f i n ≡ tabulate g j n
unfolding tabulate
tabulate_eq f g i j zero h = refl
tabulate_eq f g i j (suc n) h = cc (first, tabulate_eq f g (i + 1) (j + 1) n step)
  where
    first : f i ≡ g j
    first = ap f (omega arith) ∙ h 0 (omega arith) ∙ ap g (omega arith)

    step : (k : ℕ) → k < n → f (i + 1 + k) ≡ g (j + 1 + k)
    step k lt = ap f (omega arith) ∙ h (suc k) (omega arith) ∙ ap g (omega arith)

-- `a % m`, for a sum that goes round at most once.
mod-cases : (a m : ℕ) → a < m + m → ((a % m ≡ a) × (a < m)) ⊎ ((a % m + m ≡ a) × (m ≤ a))
mod-cases a m h = elim (dec_lt a m) [
  | yes p ↦ inl (mod-eq_of_lt p, p)
  | no p ↦ inr (
    omega (
      arith,
      mod-eq-sub-mod {n = a} {m = m} (omega arith),
      mod-eq_of_lt {n = a - m} {m = m} (omega arith),
    ),
    omega arith,
  )
]

-- A place behind the front that is in use is not the place where the next descriptor goes.
slot_ne : (m f k n : ℕ) → f < m → k < n → n < m → (f + k) % m ≢ (f + n) % m
slot_ne m f k n hf hk hn =
    ground (arith, mod-cases (f + k) m (omega arith), mod-cases (f + n) m (omega arith))

pushed : Queue → ℕ → Queue
pushed q fd = record q {
  fds = set q.fds q.rear fd;
  rear = (q.rear + 1) % q.max_size;
  size = q.size + 1;
}

popped : Queue → Queue
popped q = record q { front = (q.front + 1) % q.max_size; size = q.size - 1 }

contents-pushed :
    (q : Queue) (fd : ℕ)
    → IsValid q
    → q.size < q.max_size
    → contents (pushed q fd) ≡ contents q ++ fd ∷ []
unfolding contents pushed
contents-pushed q fd v h =
    ap (λ n. tabulate (slot (pushed q fd)) 0 n) (add-one q.size)
    ∙ tabulate_snoc (slot (pushed q fd)) 0 q.size
    ∙ ap₂ (λ l x. l ++ x ∷ []) (tabulate_eq _ _ 0 0 q.size kept) placed
  where
    at_rear : (q.front + (0 + q.size)) % q.max_size ≡ q.rear
    at_rear = ap (λ n. (q.front + n) % q.max_size) (omega arith) ∙ sym v.rear_at

    placed : slot (pushed q fd) (0 + q.size) ≡ fd
    placed = rw at_rear (get_or-set_self q.fds q.rear fd 0 (in_bounds v).1)

    kept : (k : ℕ) → k < q.size → slot (pushed q fd) (0 + k) ≡ slot q (0 + k)
    kept k lt = get_or-set_ne q.fds fd 0 λ e.
        slot_ne q.max_size q.front k q.size v.front_in lt h
          (ap (λ n. (q.front + n) % q.max_size) (omega arith) ∙ sym e ∙ v.rear_at)

contents-popped :
    (q : Queue) → IsValid q → 0 < q.size → contents q ≡ get_or q.fds q.front 0 ∷ contents (popped q)
unfolding contents popped
contents-popped q v h =
    ap (λ n. tabulate (slot q) 0 n) (let e : q.size ≡ suc (q.size - 1) = omega arith in e)
    ∙ ap₂ ◌∷◌ first (tabulate_eq _ _ (0 + 1) 0 (q.size - 1) shifted)
  where
    first : slot q 0 ≡ get_or q.fds q.front 0
    first = ap (λ n. get_or q.fds n 0) (rw (add-zero q.front) (mod-eq_of_lt v.front_in))

    shifted : (k : ℕ) → k < q.size - 1 → slot q (0 + 1 + k) ≡ slot (popped q) (0 + k)
    shifted k lt =
        ap (λ n. get_or q.fds n 0)
          (ap (λ n. n % q.max_size) (omega arith)
            ∙ sym (mod-add-mod (q.front + 1) q.max_size (0 + k)))

contents-empty : (q : Queue) → q.size ≡ 0 → contents q ≡ []
unfolding contents
contents-empty q h = rw h

-- On a valid queue `queue_push` waits, leaves or appends to the list of waiting descriptors exactly
-- as the bounded list does.
pub queue_push_refines :
    (q : Queue) (fd : ℕ) (sigint : Bool)
    → IsValid q
    → view_push (queue_push q fd sigint) ≡ fifo_push q.max_size (contents q) fd sigint
unfolding queue_push pushed
queue_push_refines q fd sigint v = ground (arith, length-contents q, contents-pushed q fd v)

-- On a valid queue `queue_pop` waits, leaves or takes the oldest waiting descriptor exactly as the
-- list does.
pub queue_pop_refines :
    (q : Queue) (sigint : Bool)
    → IsValid q
    → view_pop (queue_pop q sigint) ≡ fifo_pop (contents q) sigint
unfolding queue_pop popped
queue_pop_refines q sigint v = ground (arith, contents-popped q v, contents-empty q)
