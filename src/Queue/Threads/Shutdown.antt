-- ===== src/Queue/Threads/Shutdown.antt =====
-- What SIGINT does to an accept loop of src/server.c that sleeps in `queue_push`.
use mathlib.Core.Logic.{◌≢◌}
use barehttp.Base.{ℕ, ◌≡◌, refl, Bool, true, arith}
use barehttp.Queue.{Queue, done, queue_pop}
use barehttp.Queue.Threads.{
  Main, System, Step, interrupt, accept, accept_ends, push_waits, push_leaves, push_wakes,
  push_unheard, pop_waits, pop_leaves, pop_takes, serves, abandons, finishes, shuts_down,
}

-- Steps alone: no thread wakes for no reason.
pub data Steps (n : ℕ) (s : System) : System → Type 0 where
  none : Steps n s s
  more : {t u : System} → Steps n s t → Step n t u → Steps n s u

-- The accept loop sleeps on a full queue and the signal has come.
abbrev pub IsStuck : ℕ → System → Type 0
IsStuck fd s = (s.main ≡ Main.blocked fd) × (s.sigint ≡ true)

-- After SIGINT no thread takes anything out of the queue.
pop_ne_done :
    (q : Queue) (sigint : Bool) {r : ℕ × Queue} → sigint ≡ true → queue_pop q sigint ≢ done r
unfolding queue_pop
pop_ne_done q sigint h = ground arith

Step-IsStuck : {n fd : ℕ} {s t : System} → Step n s t → IsStuck fd s → IsStuck fd t
Step-IsStuck interrupt (m, g) = (m, refl)
Step-IsStuck (accept k e) (m, g) = cc
Step-IsStuck (accept_ends e) (m, g) = cc
Step-IsStuck (push_waits k e p) (m, g) = cc
Step-IsStuck (push_leaves k e p) (m, g) = cc
Step-IsStuck (push_wakes k q j e p lt b) (m, g) = cc
Step-IsStuck (push_unheard k q e p b) (m, g) = cc
Step-IsStuck (pop_waits i lt w p) (m, g) = (m, g)
Step-IsStuck (pop_leaves i lt w p) (m, g) = (m, g)
Step-IsStuck {s = s} (pop_takes i k q lt w p) (m, g) = absurd (pop_ne_done s.cq s.sigint g p)
Step-IsStuck (serves i k lt w p) (m, g) = (m, g)
Step-IsStuck (abandons i k lt w p) (m, g) = (m, g)
Step-IsStuck (finishes i k lt w) (m, g) = (m, g)
Step-IsStuck (shuts_down e) (m, g) = cc

-- Once SIGINT has come while the accept loop sleeps in `queue_push`, the loop stays in its sleep through
-- every sequence of steps of any threads, as long as `pthread_cond_wait` returns with a signal only.
pub Steps-IsStuck : {n fd : ℕ} {s t : System} → IsStuck fd s → Steps n s t → IsStuck fd t
Steps-IsStuck h none = h
Steps-IsStuck h (more r st) = Step-IsStuck st (Steps-IsStuck h r)
