-- ===== src/Queue.antt =====
-- srclib/queue.c: the circular queue of accepted connections and the table of active descriptors.
-- The mutex and the two condition variables are in `Threads`: what stands here is what a thread
-- does between taking the mutex and giving it up.
pub mod Inv
pub mod Refine
pub mod Active
pub mod Threads
mod Examples
use barehttp.Base.{
  ℕ, ◌+◌, ◌-◌, ◌%◌, Bool, List, Option, none, some, ◌==◌, if◌then◌else◌, get_or, set, replicate,
}

-- `struct _queue`, without the mutex and the condition variables.
pub record Queue : Type 0 where
  pub fds : List ℕ
  pub max_size : ℕ
  pub size : ℕ
  pub front : ℕ
  pub rear : ℕ
  pub active_fds : List ℕ

-- The tests stand for what `malloc` and the two calls of `calloc` return: false is NULL.
unfoldable pub queue_create : Bool → Bool → Bool → ℕ → ℕ → Option Queue
queue_create cq_ok fds_ok active_ok pool_size queue_max =
    let cq : Queue = record {
      fds = replicate queue_max 0;
      max_size = queue_max;
      size = 0;
      front = 0;
      rear = 0;
      active_fds = replicate pool_size 0;
    } in
    if cq_ok then (if fds_ok then (if active_ok then some cq else none) else none) else none

-- What a thread does after it looked at the queue with the mutex held: it sleeps on the condition
-- variable, it leaves because of SIGINT, or it is done.
pub data Turn (A : Type 0) : Type 0 where
  wait : Turn A
  leave : Turn A
  done : A → Turn A

-- One round of the loop of `queue_push`, and what follows the loop when it ends.
unfoldable pub queue_push : Queue → ℕ → Bool → Turn Queue
queue_push cq fd sigint =
    if cq.size == cq.max_size
    then (if sigint then leave else wait)
    else if sigint
    then leave
    else done (record cq {
      fds = set cq.fds cq.rear fd;
      rear = (cq.rear + 1) % cq.max_size;
      size = cq.size + 1;
    })

-- One round of the loop of `queue_pop`, and what follows it. On `leave` the function returns -1.
unfoldable pub queue_pop : Queue → Bool → Turn (ℕ × Queue)
queue_pop cq sigint =
    if cq.size == 0
    then (if sigint then leave else wait)
    else if sigint
    then leave
    else done (
      get_or cq.fds cq.front 0,
      record cq { front = (cq.front + 1) % cq.max_size; size = cq.size - 1 },
    )

unfoldable pub queue_add_active_fd : Queue → ℕ → ℕ → Queue
queue_add_active_fd cq fd id = record cq { active_fds = set cq.active_fds id fd }

unfoldable pub queue_del_active_fd : Queue → ℕ → Queue
queue_del_active_fd cq id = record cq { active_fds = set cq.active_fds id 0 }

unfoldable pub queue_get_active_fd : Queue → ℕ → ℕ
queue_get_active_fd cq id = get_or cq.active_fds id 0
