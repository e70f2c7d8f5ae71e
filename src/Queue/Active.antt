-- ===== src/Queue/Active.antt =====
-- The table of active descriptors of srclib/queue.c, one slot for each thread of the pool.
use barehttp.Base.{
  ℕ, ◌<◌, ◌≡◌, List, arith, ◌==◌, if◌then◌else◌, length, get_or, set, get_or-set_self,
  get_or-set_ne, length-set,
}
use barehttp.Queue.{Queue, queue_add_active_fd, queue_del_active_fd, queue_get_active_fd}
use barehttp.Queue.Inv.{IsValid}
use barehttp.Queue.Refine.{contents, contents-active}

get_or-set :
    (xs : List ℕ) (i j v : ℕ)
    → i < length xs
    → get_or (set xs i v) j 0 ≡ (if i == j then v else get_or xs j 0)
get_or-set xs i j v h =
    ground (arith, get_or-set_self xs i v 0 h, get_or-set_ne xs {i = i} {j = j} v 0)

-- After a thread of the pool has entered a descriptor, its slot shows that descriptor and every
-- other slot shows what it did; after it has left, its slot shows 0 and the other slots are as
-- before it entered. Neither call changes which descriptors wait, nor the validity of the queue.
active_fds_lem :
    (q : Queue) (fd id j : ℕ)
    → IsValid q
    → id < length q.active_fds
    → let entered = queue_add_active_fd q fd id in
      let left = queue_del_active_fd entered id in
      (queue_get_active_fd entered j ≡ (if id == j then fd else queue_get_active_fd q j))
      × (queue_get_active_fd left j ≡ (if id == j then 0 else queue_get_active_fd q j))
      × (contents entered ≡ contents q)
      × (contents left ≡ contents q)
      × IsValid entered
      × IsValid left
unfolding queue_add_active_fd queue_del_active_fd queue_get_active_fd
active_fds_lem q fd id j v h = ground (
  arith,
  get_or-set q.active_fds id j fd h,
  get_or-set (set q.active_fds id fd) id j 0,
  length-set q.active_fds id fd,
  contents-active q (set q.active_fds id fd),
  contents-active q (set (set q.active_fds id fd) id 0),
)
