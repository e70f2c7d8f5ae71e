-- ===== src/Os.antt =====
-- The operating system under the server: the system calls that src/server.c, srclib/tcp.c,
-- srclib/logs.c and srclib/http.c make. None of it is code of the repository. It is a parameter, a
-- record of functions that answer each call, and every answer may depend on all the calls made
-- before it. A program is a function on the trace of those calls.
pub mod Traces
pub mod Held
pub mod Pending
pub mod Sample
use barehttp.Base.{ℕ, ℤ, List, ◌∷◌, Bool}
use barehttp.CString.{Bytes}

-- What a call answers: a value, or the `errno` that it sets.
pub data Result (A : Type 0) : Type 0 where
  ok : A → Result A
  err : ℕ → Result A

-- The fields of `struct stat` that the server reads.
pub record Stat : Type 0 where
  pub st_size : ℕ
  pub st_mtime : ℕ

-- `errno` values of Linux.
abbrev pub enoent : ℕ
enoent = 2

abbrev pub eintr : ℕ
eintr = 4

abbrev pub ebadf : ℕ
ebadf = 9

abbrev pub eagain : ℕ
eagain = 11

abbrev pub eacces : ℕ
eacces = 13

abbrev pub epipe : ℕ
epipe = 32

abbrev pub eloop : ℕ
eloop = 40

abbrev pub enotconn : ℕ
enotconn = 107

-- The `resolve` bits that `openat2` is given.
pub record Resolve : Type 0 where
  pub beneath : Bool
  pub no_symlinks : Bool

-- What the program allocates and frees: the configuration with its strings, the log (`fopen` and the
-- mutex), the client queue, three arrays, and a request.
pub data Resource : Type 0 where
  conf_memory : Resource
  log_memory : Resource
  log_stream : Resource
  queue_memory : Resource
  events_memory : Resource
  threads_memory : Resource
  args_memory : Resource
  request_memory : Resource

-- A call with its answer.
pub data Event : Type 0 where
  made_socket : Result ℕ → Event
  set_reuseaddr : (fd : ℕ) → Result (Unit {0}) → Event
  bound : (fd port : ℕ) → Result (Unit {0}) → Event
  listened : (fd : ℕ) → (backlog : ℤ) → Result (Unit {0}) → Event
  accepted : (fd : ℕ) → Result ℕ → Event
  sent : (fd : ℕ) → Bytes → Result ℕ → Event
  received : (fd room : ℕ) → Result Bytes → Event
  shut : (fd : ℕ) → Result (Unit {0}) → Event
  closed : (fd : ℕ) → Result (Unit {0}) → Event
  opened : (root : ℕ) → Bytes → Resolve → Result ℕ → Event
  statted : (fd : ℕ) → Result Stat → Event
  sent_file : (out fd offset count : ℕ) → Result ℕ → Event
  piped : Result (ℕ × ℕ) → Event
  -- With the program that the child goes on to execute, and its arguments.
  forked : Bytes → List Bytes → Result ℕ → Event
  wrote : (fd : ℕ) → Bytes → Result ℕ → Event
  read_from : (fd room : ℕ) → Result Bytes → Event
  waited : (pid : ℕ) → Event
  told_time : ℕ → Event
  named_peer : (fd : ℕ) → Result (Bytes × ℕ) → Event
  locked_log : Event
  unlocked_log : Event
  logged : Bytes → Result (Unit {0}) → Event
  -- A thread of the pool enters a descriptor as active, and takes it out again.
  entered : (fd id : ℕ) → Event
  left : (id : ℕ) → Event
  got_flags : (fd : ℤ) → Result ℕ → Event
  set_flags : (fd : ℤ) → (flags : ℕ) → Result (Unit {0}) → Event
  made_epoll : Result ℕ → Event
  -- `epoll_ctl` with EPOLL_CTL_ADD and EPOLL_CTL_DEL; `word` is the union `data` of the event.
  watched : (epollfd : ℕ) → (fd : ℕ) → (word : ℕ) → Result (Unit {0}) → Event
  unwatched : (epollfd fd : ℕ) → Result (Unit {0}) → Event
  polled : (epollfd : ℕ) → (maxevents : ℤ) → Result (List ℕ) → Event
  -- An allocation with its answer, and the call that frees it.
  acquired : Resource → Bool → Event
  released : Resource → Event
  saw_sigint : Bool → Event
  -- `stat` of the directory of the log files: whether it is a directory.
  statted_logs : Result Bool → Event
  made_logs : Result (Unit {0}) → Event
  fopened : Bytes → Result (Unit {0}) → Event
  made_mutex : Bool → Event
  opened_root : Bytes → Result ℕ → Event
  -- `sigaction` for SIGINT, and `signal` for SIGPIPE.
  handled_sigint : Event
  ignored_sigpipe : Event
  -- `setsockopt` with SO_RCVTIMEO.
  set_timeout : (fd : ℕ) → (sec usec : ℤ) → Event
  -- What the main thread does with the threads of the pool: `pthread_create` with whether it
  -- succeeds, `pthread_detach`, `pthread_join`; and with the queue: a connection that `queue_push`
  -- puts in it, `queue_shutdown`, and `queue_get_active_fd` with its answer.
  spawned : (id : ℕ) → Bool → Event
  detached : (id : ℕ) → Event
  joined : (id : ℕ) → Event
  pushed : (fd : ℕ) → Event
  woke_threads : Event
  found_active : (id fd : ℕ) → Event

-- Newest first.
abbrev pub Trace : Type 0
Trace = List Event

pub record Os : Type 0 where
  pub socket : Trace → Result ℕ
  pub setsockopt : Trace → ℕ → Result (Unit {0})
  pub bind : Trace → ℕ → ℕ → Result (Unit {0})
  pub listen : Trace → ℕ → ℤ → Result (Unit {0})
  pub accept : Trace → ℕ → Result ℕ
  pub send : Trace → ℕ → Bytes → Result ℕ
  pub recv : Trace → ℕ → ℕ → Result Bytes
  pub shutdown : Trace → ℕ → Result (Unit {0})
  pub close : Trace → ℕ → Result (Unit {0})
  pub openat2 : Trace → ℕ → Bytes → Resolve → Result ℕ
  pub fstat : Trace → ℕ → Result Stat
  pub sendfile : Trace → ℕ → ℕ → ℕ → ℕ → Result ℕ
  pub pipe : Trace → Result (ℕ × ℕ)
  -- `fork` in the parent: the pid of a child that goes on to execute this program.
  pub fork : Trace → Bytes → List Bytes → Result ℕ
  pub write : Trace → ℕ → Bytes → Result ℕ
  pub read : Trace → ℕ → ℕ → Result Bytes
  pub getfl : Trace → ℤ → Result ℕ
  pub setfl : Trace → ℤ → ℕ → Result (Unit {0})
  pub epoll_create : Trace → Result ℕ
  pub epoll_add : Trace → ℕ → ℕ → ℕ → Result (Unit {0})
  pub epoll_del : Trace → ℕ → ℕ → Result (Unit {0})
  -- The words of the events that are ready.
  pub epoll_wait : Trace → ℕ → ℤ → Result (List ℕ)
  -- Whether an allocation succeeds, and the address that `calloc` gives a client, 0 for
  -- NULL; the addresses of the clients that are allocated are its argument.
  pub alloc : Trace → Resource → Bool
  pub calloc_client : Trace → List ℕ → ℕ
  -- What stands in memory behind the array `rq` of the client at an address.
  pub behind : Trace → ℕ → Bytes
  pub stat_logs : Trace → Result Bool
  pub mkdir_logs : Trace → Result (Unit {0})
  pub fopen : Trace → Bytes → Result (Unit {0})
  pub mutex_init : Trace → Bool
  pub open_root : Trace → Bytes → Result ℕ
  pub pthread_create : Trace → ℕ → Bool
  -- What the threads have left in the table of active descriptors when the main thread reads it.
  pub active_fd : Trace → ℕ → ℕ
  -- The variable `sigint` where the program reads it.
  pub sigint : Trace → Bool
  pub time : Trace → ℕ
  pub getpeername : Trace → ℕ → Result (Bytes × ℕ)
  pub fprintf : Trace → Bytes → Result (Unit {0})
  -- `strftime` of `localtime` and of `gmtime`: the format, and the time.
  pub local_text : Bytes → ℕ → Bytes
  pub gmt_text : Bytes → ℕ → Bytes
  pub strerror : ℕ → Bytes
  -- What an array `char path[MAX_PATH]` holds that nothing was written to.
  pub garbage : Trace → Bytes

-- A program over the trace.
abbrev pub M : Type 0 → Type 0
M A = Trace → A × Trace

-- Notes something that the program did.
abbrev pub note : Event → Trace → Unit {0} × Trace
note e t = (tt, e ∷ t)

abbrev pub pure : {A : Type 0} → A → M A
pure a t = (a, t)

infixl 5 ◌>>=◌ ◌>>◌
abbrev pub ◌>>=◌ : {A B : Type 0} → M A → (A → M B) → M B
◌>>=◌ m f t = let r = m t in f r.0 r.1

abbrev pub ◌>>◌ : {A B : Type 0} → M A → M B → M B
◌>>◌ m k t = k (m t).1

-- Asks the system and records the call with its answer.
abbrev pub call : {A : Type 0} → (Trace → A) → (A → Event) → M A
call ask event t = let r = ask t in (r, event r ∷ t)

-- `malloc` and `calloc` of one of the resources.
abbrev pub alloc : Os → Resource → M Bool
alloc os r = call (λ t. os.alloc t r) (acquired r)

abbrev pub release : Resource → M (Unit {0})
release r = note (released r)
