-- ===== src/Coro/Coroutine/Tests.antt =====
-- The theorems on coroutines at a thread with one coroutine, whose function starts at 10, adds one
-- to a counter, yields to 20 and adds ten.
use my_project.Prelude.{ℕ, ◌+◌, ◌≡◌, refl, Option, none, some, ◌==◌, if◌then◌else◌, false, arith}
use my_project.Coro.Coroutine.{done, Runtime, new_coroutine}
use my_project.Coro.Coroutine.Parked.{IsIdle, fresh, unentered}
use my_project.Coro.Coroutine.Straight.{Runs, returns, passes, resume_times, resume_times-straight}

abbrev step : ℕ → ℕ → Option ℕ × ℕ
step position n = if position == 10 then (some 20, n + 1) else (none, n + 10)

abbrev thread : Runtime ℕ
thread = record {
  coroutines = λ co. new_coroutine 10;
  current = none;
  next_id = 1;
  aborted = false;
  rest = 5;
}

thread-IsIdle : IsIdle thread
thread-IsIdle = record {
  no_current = refl;
  alive = refl;
  parked = λ co l. fresh _ 10 refl refl refl;
}

runs : Runs step 1 10 5 16
runs = passes refl (returns refl)

straight_example :
    ((resume_times step 2 0 thread).rest ≡ 16)
    × (((resume_times step 2 0 thread).coroutines 0).state ≡ done)
    × IsIdle (resume_times step 2 0 thread)
straight_example =
    resume_times-straight step 1 0 10 thread 16 runs thread-IsIdle (omega arith)
      (unentered _ refl refl refl)
