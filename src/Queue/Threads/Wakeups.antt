-- ===== src/Queue/Threads/Wakeups.antt =====
-- No signal of srclib/queue.c on `not_empty` is lost: how many threads of src/server.c are awake.
use mathlib.Core.Logic.{◌≢◌}
use barehttp.Base.{
  ℕ, zero, suc, ◌+◌, ◌<◌, ◌≤◌, ◌≡◌, refl, ap, Bool, true, false, ◌==◌, inl, inr, Bool-cases,
  if◌then◌else◌, arith,
}
use barehttp.Queue.{
  Queue, wait, leave, done, queue_push, queue_pop, queue_add_active_fd, queue_del_active_fd,
}
use barehttp.Queue.Threads.{
  Worker, popping, popped, serving, stopped, System, update, wake_worker, Step, interrupt, accept,
  accept_ends, push_waits, push_leaves, push_wakes, push_unheard, pop_waits, pop_leaves, pop_takes,
  serves, abandons, finishes, shuts_down, Spurious, main_wakes, worker_wakes, Reach, here, next,
  stray,
}

abbrev one_popping : Worker → ℕ
one_popping popping = 1
one_popping Worker.blocked = 0
one_popping (popped fd) = 0
one_popping (serving fd) = 0
one_popping stopped = 0

-- How many of the first `n` threads are awake to look at the queue.
unfoldable pub count_popping : ℕ → (ℕ → Worker) → ℕ
count_popping zero f = 0
count_popping (suc n) f = one_popping (f n) + count_popping n f

count_popping-update_above :
    (n i : ℕ) (f : ℕ → Worker) (w : Worker)
    → n ≤ i
    → count_popping n (update f i w) ≡ count_popping n f
unfolding count_popping
count_popping-update_above zero i f w h = refl
count_popping-update_above (suc n) i f w h =
    ground (arith, count_popping-update_above n i f w (omega (arith, h)))

count_popping-update :
    (n i : ℕ) (f : ℕ → Worker) (w : Worker)
    → i < n
    → count_popping n (update f i w) + one_popping (f i) ≡ count_popping n f + one_popping w
unfolding count_popping
count_popping-update zero i f w h = absurd (omega (arith, h))
count_popping-update (suc n) i f w h = elim (Bool-cases (i == n)) [
  | inl e ↦ grind (arith, count_popping-update_above n i f w (ground arith))
  | inr e ↦ grind (arith, count_popping-update n i f w (ground arith))
]

-- While SIGINT has not come and a thread sleeps, no more connections wait than threads are awake.
abbrev Awake : ℕ → System → Type 0
Awake n s =
    s.sigint ≡ false
    → (j : ℕ) → j < n
    → s.worker j ≡ Worker.blocked
    → s.cq.size ≤ count_popping n s.worker

-- A thread that sleeps when another has moved slept before.
asleep :
    (f : ℕ → Worker) (i j : ℕ) (w : Worker)
    → w ≢ Worker.blocked
    → update f i w j ≡ Worker.blocked
    → f j ≡ Worker.blocked
asleep f i j w b e = elim (Bool-cases (i == j)) [
  | inl p ↦ absurd (b (grind arith))
  | inr p ↦ grind arith
]

-- A thread moves to a state in which it does not sleep and is no less awake.
moves-Awake :
    {n : ℕ} (s : System) (i : ℕ) (w : Worker)
    → i < n
    → w ≢ Worker.blocked
    → one_popping (s.worker i) ≤ one_popping w
    → Awake n s
    → Awake n (record s { worker = update s.worker i w })
moves-Awake {n} s i w lt b le a g j k e =
    omega (arith, a g j k (asleep s.worker i j w b e), count_popping-update n i s.worker w lt, le)

wait_empty : (q : Queue) (sigint : Bool) → queue_pop q sigint ≡ wait → q.size ≡ 0
unfolding queue_pop
wait_empty q sigint e = ground arith

leave_sigint : (q : Queue) (sigint : Bool) → queue_pop q sigint ≡ leave → sigint ≡ true
unfolding queue_pop
leave_sigint q sigint e = ground arith

pop_size :
    (q : Queue) (sigint : Bool) {fd : ℕ} {q' : Queue}
    → queue_pop q sigint ≡ done (fd, q')
    → q.size ≡ q'.size + 1
unfolding queue_pop
pop_size q sigint e = ground arith

push_size :
    (q : Queue) (fd : ℕ) (sigint : Bool) {q' : Queue}
    → queue_push q fd sigint ≡ done q'
    → q'.size ≡ q.size + 1
unfolding queue_push
push_size q fd sigint e = ground arith

wake_worker-ne : (w : Worker) → wake_worker w ≢ Worker.blocked
wake_worker-ne popping = cc
wake_worker-ne Worker.blocked = cc
wake_worker-ne (popped fd) = cc
wake_worker-ne (serving fd) = cc
wake_worker-ne stopped = cc

wake_worker-le : (w : Worker) → one_popping w ≤ one_popping (wake_worker w)
wake_worker-le popping = omega arith
wake_worker-le Worker.blocked = omega arith
wake_worker-le (popped fd) = omega arith
wake_worker-le (serving fd) = omega arith
wake_worker-le stopped = omega arith

finished-ne : (sigint : Bool) → (if sigint then stopped else popping) ≢ Worker.blocked
finished-ne true = cc
finished-ne false = cc

Step-Awake : {n : ℕ} {s t : System} → Step n s t → Awake n s → Awake n t
unfolding queue_add_active_fd queue_del_active_fd
Step-Awake interrupt a g j k e = cc
Step-Awake (accept fd m) a g j k e = a g j k e
Step-Awake (accept_ends m) a g j k e = a g j k e
Step-Awake (push_waits fd m p) a g j k e = a g j k e
Step-Awake (push_leaves fd m p) a g j k e = a g j k e
Step-Awake {n} {s} (push_wakes fd q i m p lt b) a g j k e = omega (
  arith,
  a g i lt b,
  push_size s.cq fd s.sigint p,
  count_popping-update n i s.worker popping lt,
  ap one_popping b,
)
Step-Awake (push_unheard fd q m p b) a g j k e = absurd (b j k e)
Step-Awake {s = s} (pop_waits i lt w p) a g j k e = omega (arith, wait_empty s.cq s.sigint p)
Step-Awake {s = s} (pop_leaves i lt w p) a g j k e =
    absurd (grind (arith, leave_sigint s.cq s.sigint p))
Step-Awake {n} {s} (pop_takes i fd q lt w p) a g j k e = omega (
  arith,
  a g j k (asleep s.worker i j (popped fd) (λ h. cc) e),
  pop_size s.cq s.sigint p,
  count_popping-update n i s.worker (popped fd) lt,
  ap one_popping w,
)
Step-Awake {s = s} (serves i fd lt w p) a g j k e =
    moves-Awake s i (serving fd) lt (λ h. cc) (omega (arith, ap one_popping w)) a g j k e
Step-Awake (abandons i fd lt w p) a g j k e = absurd (cc)
Step-Awake {n} {s} (finishes i fd lt w) a g j k e =
    moves-Awake s i (if s.sigint then stopped else popping) lt (finished-ne s.sigint)
      (omega (arith, ap one_popping w)) a g j k e
Step-Awake {s = s} (shuts_down m) a g j k e = absurd (wake_worker-ne (s.worker j) e)

Spurious-Awake : {n : ℕ} {s t : System} → Spurious n s t → Awake n s → Awake n t
Spurious-Awake main_wakes a g j k e = a g j k e
Spurious-Awake {s = s} (worker_wakes i lt) a g j k e =
    moves-Awake s i (wake_worker (s.worker i)) lt (wake_worker-ne (s.worker i))
      (wake_worker-le (s.worker i)) a g j k e

Reach-Awake : {n : ℕ} {s t : System} → Awake n s → Reach n s t → Awake n t
Reach-Awake a here = a
Reach-Awake a (next r st) = Step-Awake st (Reach-Awake a r)
Reach-Awake a (stray r sp) = Spurious-Awake sp (Reach-Awake a r)

-- The accept loop and any number of threads start with no thread asleep. Then in every state that
-- they reach, in any interleaving and with any spurious wakeups: as long as SIGINT has not come and
-- some thread sleeps on `not_empty`, there are at least as many threads awake and about to look at the
-- queue as connections wait in it. So no signal on `not_empty` is lost.
pub wakeups_kept :
    {n : ℕ} {s t : System}
    → ((j : ℕ) → j < n → s.worker j ≢ Worker.blocked)
    → Reach n s t
    → t.sigint ≡ false
    → (j : ℕ) → j < n
    → t.worker j ≡ Worker.blocked
    → t.cq.size ≤ count_popping n t.worker
wakeups_kept b r = Reach-Awake (λ g j k e. absurd (b j k e)) r
