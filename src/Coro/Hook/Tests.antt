-- ===== src/Coro/Hook/Tests.antt =====
-- The theorems on the waiting calls at descriptor 5 and coroutine 3, which is parked twice.
use my_project.Prelude.{◌≡◌, true, false, some, List, [], ◌∷◌}
use my_project.Util.Result.{eagain, eintr, returned, failed}
use my_project.Coro.Scheduler.{on_fd_ready}
use my_project.Reactor.Poller.{new_channel}
use my_project.Coro.Hook.{Thread, finished, ensure_nonblocking, after_call, park_for_read, co_read}
use my_project.Coro.Hook.Retry.{first_attempt, later_attempts, waits, co_read-waits}

abbrev thread : Thread
thread = record {
  scheduler = record {
    ready_queue = [];
    waiting_for_read = [];
    waiting_for_write = [];
    is_current = true;
    poller = record { store = λ a. new_channel 0 (λ k. false); channels = []; channel_list = [] };
    next_channel = 1;
  };
  errno = eagain;
  nonblocking = λ fd. false;
}

-- The event loop reports the descriptor.
abbrev report : Thread → Thread
report t = record t { scheduler = on_fd_ready 5 t.scheduler }

abbrev reports : List (Thread → Thread)
reports = report ∷ report ∷ []

read_example :
    co_read
      (some 3)
      5
      true
      (returned 0)
      (returned 0)
      (first_attempt reports (failed eintr))
      (later_attempts reports (failed eintr) [])
      thread
    ≡ finished (failed eintr) [] (
        after_call (failed eintr) (
          waits
            (park_for_read (some 3) 5)
            reports
            (ensure_nonblocking 5 (returned 0) (returned 0) thread)))
read_example =
    co_read-waits (some 3) 5 (returned 0) (returned 0) reports (failed eintr) [] thread (cc)
