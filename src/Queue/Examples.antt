-- ===== src/Queue/Examples.antt =====
-- Runs of the queue of srclib/queue.c, and its theorems at concrete queues.
use barehttp.Base.{◌≤◌, ◌≡◌, refl, true, false, [], ◌∷◌, arith}
use barehttp.Queue.{Queue, wait, leave, done, queue_push, queue_pop}
use barehttp.Queue.Inv.{IsValid}
use barehttp.Queue.Refine.{
  contents, view_push, view_pop, fifo_push, fifo_pop, queue_push_refines, queue_pop_refines,
}
use barehttp.Queue.Threads.Wakeups.{count_popping, wakeups_kept}
use barehttp.Queue.Threads.{
  Worker, Reach, pop_waits, accept, push_wakes, Main, System, update, popping, popped, accepting,
  pop_takes, interrupt, here, next,
}
use barehttp.Queue.Threads.Order.{Inv, Reach-Inv}
use barehttp.Queue.Threads.Shutdown.{IsStuck, none, more, Steps-IsStuck}

-- 8, then 9, round the end of the array.
abbrev wrapped : Queue
wrapped = record {
  fds = 9 ∷ 0 ∷ 8 ∷ [];
  max_size = 3;
  size = 2;
  front = 2;
  rear = 1;
  active_fds = 0 ∷ 5 ∷ [];
}

wrapped-IsValid : IsValid wrapped
wrapped-IsValid = omega arith

push_then_full :
    (queue_push wrapped 7 false
      ≡ done (record wrapped { fds = 9 ∷ 7 ∷ 8 ∷ []; rear = 2; size = 3 }))
    × (queue_push (record wrapped { size = 3; rear = 2 }) 6 false ≡ wait)
    × (queue_push (record wrapped { size = 3; rear = 2 }) 6 true ≡ leave)
unfolding queue_push
push_then_full = (refl, refl, refl)

pop_oldest : queue_pop wrapped false ≡ done (8, record wrapped { front = 0; size = 1 })
unfolding queue_pop
pop_oldest = refl

contents-wrapped : contents wrapped ≡ 8 ∷ 9 ∷ []
unfolding contents
contents-wrapped = refl

abbrev fresh : Queue
fresh = record {
  fds = 0 ∷ 0 ∷ 0 ∷ [];
  max_size = 3;
  size = 0;
  front = 0;
  rear = 0;
  active_fds = 0 ∷ 0 ∷ [];
}

queue_push_refines_example :
    view_push (queue_push wrapped 7 false) ≡ fifo_push 3 (contents wrapped) 7 false
queue_push_refines_example = queue_push_refines wrapped 7 false wrapped-IsValid

queue_pop_refines_example : view_pop (queue_pop wrapped false) ≡ fifo_pop (contents wrapped) false
queue_pop_refines_example = queue_pop_refines wrapped false wrapped-IsValid

-- One thread is about to take a descriptor; 7 has passed through the queue already.
abbrev busy : System
busy = record {
  cq = wrapped;
  sigint = false;
  main = accepting;
  worker = λ i. popping;
  pushed = 7 ∷ 8 ∷ 9 ∷ [];
  taken = 7 ∷ [];
}

busy-Inv : Inv 3 busy
unfolding contents
busy-Inv = record { valid = wrapped-IsValid; capacity = refl; in_order = refl; full = λ fd e. cc }

abbrev taken_one : System
taken_one = record busy {
  cq = record wrapped { front = 0; size = 1 };
  worker = update (λ i. popping) 0 (popped 8);
  taken = 7 ∷ 8 ∷ [];
}

Reach-Inv_example : Inv 3 taken_one
unfolding queue_pop
Reach-Inv_example =
    Reach-Inv {n = 2} {s = busy} busy-Inv
      (next here (pop_takes 0 8 (record wrapped { front = 0; size = 1 }) (omega arith) refl refl))

-- Two threads go to sleep, then a connection comes and wakes the second.
abbrev idle : System
idle = record busy { cq = record wrapped { size = 0; rear = 2 }; pushed = []; taken = [] }

abbrev both_asleep : System
both_asleep = record idle { worker = update (update idle.worker 0 Worker.blocked) 1 Worker.blocked }

abbrev one_woken : System
one_woken = record both_asleep {
  cq = record wrapped { fds = 9 ∷ 0 ∷ 5 ∷ []; size = 1; rear = 0 };
  worker = update both_asleep.worker 1 popping;
  pushed = 5 ∷ [];
}

one_woken-reached : Reach 2 idle one_woken
unfolding queue_push queue_pop
one_woken-reached =
    next
      (next
        (next (next here (pop_waits 0 (omega arith) refl refl))
          (pop_waits 1 (omega arith) refl refl))
        (accept 5 refl))
      (push_wakes 5 (record wrapped { fds = 9 ∷ 0 ∷ 5 ∷ []; size = 1; rear = 0 }) 1 refl refl
        (omega arith) refl)

wakeups_kept_example : 1 ≤ count_popping 2 one_woken.worker
wakeups_kept_example =
    wakeups_kept {n = 2} {s = idle} {t = one_woken} (λ j k. cc) one_woken-reached refl 0
      (omega arith) refl

-- A full queue, and a signal.
abbrev stuck : System
stuck = record busy {
  cq = record wrapped { fds = 9 ∷ 7 ∷ 8 ∷ []; size = 3; rear = 2 };
  main = Main.blocked 6;
  sigint = true;
}

Steps-IsStuck_example : IsStuck 6 stuck
Steps-IsStuck_example = Steps-IsStuck {n = 2} {s = stuck} (refl, refl) (more none interrupt)
