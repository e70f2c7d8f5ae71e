-- ===== src/Os/Sample.antt =====
-- A system for the tests: every call succeeds, every file has ten bytes, nothing arrives.
use barehttp.Base.{
  ℕ, ◌<◌, ◌≡◌, refl, arith, false, List, ◌∷◌, ◌+◌, suc, true, [], replicate, length,
}
use barehttp.CString.{codes}
use barehttp.Os.Pending.{pending, HasFreshFds}
use barehttp.Os.{Os, Event, Trace, accepted, made_socket, made_epoll, ok, err, eintr}

abbrev pub sum : List ℕ → ℕ
sum [] = 0
sum (n ∷ ns) = n + sum ns

abbrev pub sample : Os
sample = record {
  socket = λ t. ok 3;
  setsockopt = λ t fd. ok tt;
  bind = λ t fd port. ok tt;
  listen = λ t fd backlog. ok tt;
  accept = λ t fd. ok 4;
  send = λ t fd bs. ok (length bs);
  recv = λ t fd room. ok [];
  shutdown = λ t fd. ok tt;
  close = λ t fd. ok tt;
  openat2 = λ t root path how. ok 5;
  fstat = λ t fd. ok (record { st_size = 10; st_mtime = 0 });
  sendfile = λ t out fd offset count. ok count;
  pipe = λ t. ok (6, 7);
  fork = λ t program args. ok 100;
  write = λ t fd bs. ok (length bs);
  read = λ t fd room. ok [];
  getfl = λ t fd. ok 2;
  setfl = λ t fd flags. ok tt;
  epoll_create = λ t. ok 8;
  epoll_add = λ t epollfd fd word. ok tt;
  epoll_del = λ t epollfd fd. ok tt;
  epoll_wait = λ t epollfd maxevents. err eintr;
  alloc = λ t r. true;
  calloc_client = λ t used. suc (sum used);
  behind = λ t client. [];
  stat_logs = λ t. ok true;
  mkdir_logs = λ t. ok tt;
  fopen = λ t path. ok tt;
  mutex_init = λ t. true;
  open_root = λ t path. ok 9;
  pthread_create = λ t id. true;
  active_fd = λ t id. 0;
  sigint = λ t. true;
  time = λ t. 0;
  getpeername = λ t fd. ok (codes "10.0.0.1", 80);
  fprintf = λ t text. ok tt;
  local_text = λ format now. codes "01-01-1970, 00-00-00";
  gmt_text = λ format now. codes "Thu, 01 Jan 1970 00:00:00 GMT";
  strerror = λ e. codes "error";
  garbage = λ t. replicate 132 65;
}

-- New descriptors are above all that a trace shows as made.
abbrev add_made : Event → ℕ → ℕ
add_made (accepted _ (ok fd)) n = fd + n
add_made (made_socket (ok fd)) n = fd + n
add_made (made_epoll (ok fd)) n = fd + n
add_made e n = n

abbrev total : Trace → ℕ
total [] = 0
total (e ∷ t) = add_made e (total t)

-- A descriptor above all that were made is no connection.
pending_above : (fd : ℕ) (t : Trace) → total t < fd → pending fd t ≡ false
unfolding pending
pending_above fd [] h = refl
pending_above fd (e ∷ t) h = ground (arith, pending_above fd t)

abbrev next_fd : Trace → ℕ
next_fd t = suc (total t)

next_fd-is_new : (t : Trace) (fd : ℕ) → ok (next_fd t) ≡ ok fd → pending fd t ≡ false
next_fd-is_new t fd e = pending_above fd t (ground arith)

-- A system that hands out new descriptors.
abbrev pub new_fds : Os → Os
new_fds os = record os {
  socket = λ t. ok (next_fd t);
  accept = λ t fd. ok (next_fd t);
  openat2 = λ t root path how. ok (next_fd t);
  pipe = λ t. ok (next_fd t, suc (next_fd t));
  epoll_create = λ t. ok (next_fd t);
}

pub new_fds-HasFreshFds : (os : Os) → HasFreshFds (new_fds os)
new_fds-HasFreshFds os = record {
  socket_fresh = λ t fd e. next_fd-is_new t fd e;
  accept_fresh = λ t s fd e. next_fd-is_new t fd e;
  open_fresh = λ t root path how fd e. next_fd-is_new t fd e;
  pipe_fresh =
      λ t ends e. (pending_above ends.0 t (ground arith), pending_above ends.1 t (ground arith));
}
