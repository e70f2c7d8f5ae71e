-- ===== src/Queue/Inv.antt =====
-- The representation invariant of `struct _queue`, and that the operations of srclib/queue.c keep
-- it.
use barehttp.Base.{
  ℕ, ◌+◌, ◌-◌, ◌%◌, ◌≤◌, ◌<◌, ◌≡◌, Bool, arith, some, length, length-set, length-replicate,
}
use native.Mathlib.Nat.{mod-add-mod}
use barehttp.Queue.{Queue, done, queue_create, queue_push, queue_pop}

pub record IsValid (q : Queue) : Type 0 where
  pub storage : length q.fds ≡ q.max_size
  pub size_in : q.size ≤ q.max_size
  pub front_in : q.front < q.max_size
  pub rear_at : q.rear ≡ (q.front + q.size) % q.max_size

-- Every access to `fds` by a push or a pop is inside the allocation.
pub in_bounds : {q : Queue} → IsValid q → (q.front < length q.fds) × (q.rear < length q.fds)
in_bounds {q} v = grind arith

-- The queue that `queue_create` returns for a positive capacity is valid and empty, holds the
-- capacity that was asked for, and has one slot for each thread of the pool, all of them 0.
queue_create-IsValid :
    (a b c : Bool) (pool_size queue_max : ℕ) {q : Queue}
    → 0 < queue_max
    → queue_create a b c pool_size queue_max ≡ some q
    → IsValid q × (q.size ≡ 0) × (q.max_size ≡ queue_max) × (length q.active_fds ≡ pool_size)
unfolding queue_create
queue_create-IsValid a b c pool_size queue_max {q} h e =
    ground (arith, length-replicate {A = ℕ} queue_max 0, length-replicate {A = ℕ} pool_size 0)

pub queue_push-IsValid :
    (q : Queue) (fd : ℕ) (sigint : Bool) {q' : Queue}
    → IsValid q
    → queue_push q fd sigint ≡ done q'
    → IsValid q' × (q'.max_size ≡ q.max_size)
unfolding queue_push
queue_push-IsValid q fd sigint v e =
    ground (arith, length-set q.fds q.rear fd, mod-add-mod (q.front + q.size) q.max_size 1)

pub queue_pop-IsValid :
    (q : Queue) (sigint : Bool) {fd : ℕ} {q' : Queue}
    → IsValid q
    → queue_pop q sigint ≡ done (fd, q')
    → IsValid q' × (q'.max_size ≡ q.max_size)
unfolding queue_pop
queue_pop-IsValid q sigint v e = ground (arith, mod-add-mod (q.front + 1) q.max_size (q.size - 1))
