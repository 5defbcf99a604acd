-- ===== src/Coro/Scheduler/Tests.antt =====
-- The theorems on the scheduler at a thread with two queued coroutines, of which the second has
-- ended.
use my_project.Prelude.{
  ℕ, ◌≡◌, refl, Option, none, some, [], ◌∷◌, ◌==◌, if◌then◌else◌, false, Bool-cases, inl, inr,
  arith,
}
use my_project.Reactor.Poller.{new_channel, write_fds}
use my_project.Coro.Coroutine.{done, left_last, Coroutine, Runtime, new_coroutine}
use my_project.Coro.Coroutine.Parked.{IsParked, fresh, ended, Extends}
use my_project.Prelude.FdMap.{find}
use my_project.Coro.Scheduler.{Scheduler, turn, run_queue, wait_for_read, wait_for_write}
use my_project.Coro.Scheduler.Watching.{unwatched_writer}
use my_project.Coro.Scheduler.Ready.{IsReady, IsTurned, IsRun}
use my_project.Coro.Scheduler.Queue.{turn-IsTurned, run_queue_ends}

abbrev coroutine : ℕ → Coroutine
coroutine co =
    if co == 0 then new_coroutine 10 else record { state = done; func = none; context = left_last }

abbrev thread : Runtime Scheduler
thread = record {
  coroutines = coroutine;
  current = none;
  next_id = 2;
  aborted = false;
  rest = record {
    ready_queue = 0 ∷ 1 ∷ [];
    waiting_for_read = [];
    waiting_for_write = [];
    is_current = false;
    poller = record { store = λ a. new_channel 0 (λ k. false); channels = []; channel_list = [] };
    next_channel = 1;
  };
}

-- Every function yields at once.
abbrev execute : ℕ → Runtime Scheduler → Option ℕ × Runtime Scheduler
execute position r = (some 20, r)

execute-Extends : (position : ℕ) (r : Runtime Scheduler) → Extends r (execute position r).1
execute-Extends position r = record {
  same_current = refl;
  same_alive = refl;
  more = omega arith;
  same = λ co l. refl;
  new = λ co l m. absurd (omega arith);
}

coroutine-IsParked : (co : ℕ) → IsParked (coroutine co)
coroutine-IsParked co = elim (Bool-cases (co == 0)) [
  | inl e ↦ rw e (fresh _ 10 refl refl refl)
  | inr e ↦ rw e (ended _ refl refl refl)
]

thread-IsReady : IsReady thread
thread-IsReady = record {
  idle = record { no_current = refl; alive = refl; parked = λ co l. coroutine-IsParked co };
  no_scheduler = refl;
  queued = (omega arith, (omega arith, tt));
}

coro_turn_example : IsTurned 0 (1 ∷ []) thread (turn execute 0 (1 ∷ []) thread)
coro_turn_example =
    turn-IsTurned execute execute-Extends (λ position r b. b) 0 (1 ∷ []) thread thread-IsReady refl

queue_example : (r' : Runtime Scheduler) × (run_queue execute 3 thread ≡ some r') × IsRun thread r'
queue_example =
    run_queue_ends execute execute-Extends (λ position r. refl) 3 thread thread-IsReady
      (omega arith)

unwatched_example :
    (find 5 (wait_for_write (some 1) 5 (wait_for_read (some 0) 5 thread.rest)).waiting_for_write
      ≡ some 1)
    × (write_fds (wait_for_write (some 1) 5 (wait_for_read (some 0) 5 thread.rest)).poller 5
        ≡ write_fds thread.rest.poller 5)
unwatched_example = unwatched_writer 0 1 5 5 thread.rest tt
