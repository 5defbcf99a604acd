-- ===== src/Coro/Hook.antt =====
-- hound/src/coro/hook.cpp as compiled for POSIX: calls that look blocking to a coroutine.
-- A system call that would block parks the coroutine, which waits for its descriptor and gives the
-- control away. What the thread does until the coroutine is resumed, and what the call gives then,
-- are arguments: the first attempt's outcome, and for each later one the change of the thread
-- before it with its outcome. `current` is the coroutine that runs, and `in_scheduler` whether the
-- thread has a scheduler, which it has only while a coroutine runs: without one, yield would end
-- the program.
pub mod Retry
pub mod Tests
use my_project.Prelude.{
  ℕ, zero, suc, ◌==◌, if◌then◌else◌, Bool, true, false, ◌||◌, Option, none, some, List, [], ◌∷◌,
  Bytes,
}
use my_project.Util.Result.{
  Errno, is_eagain, is_einprogress, Outcome, returned, failed, errno_after,
}
use mathlib.Core.Option
use my_project.Reactor.EventLoop.{EventLoop, run_after}
use my_project.Coro.Scheduler.{Scheduler, wait_for_read, wait_for_write}

-- The thread's scheduler, its errno, and the descriptors that do not block.
pub record Thread : Type 0 where
  pub scheduler : Scheduler
  pub errno : Errno
  pub nonblocking : ℕ → Bool

-- A call has not returned, and its coroutine is parked; or it returned, with what is left of the
-- later attempts, which are not its own.
pub data Call (R : Type 0) : Type 0 where
  parked : Thread → Call R
  finished : R → List ((Thread → Thread) × Outcome) → Thread → Call R

abbrev pub would_block : Errno → Bool
would_block e = is_eagain e

-- `ensure_nonblocking(fd)`, with what the two calls of fcntl give
unfoldable pub ensure_nonblocking : ℕ → Outcome → Outcome → Thread → Thread
ensure_nonblocking fd (failed e) set t = record t { errno = e }
ensure_nonblocking fd (returned flags) (failed e) t = record t { errno = e }
ensure_nonblocking fd (returned flags) (returned n) t = record t {
  nonblocking = λ k. if k == fd then true else t.nonblocking k;
}

abbrev pub after_call : Outcome → Thread → Thread
after_call o t = record t { errno = errno_after o t.errno }

module _ (current : Option ℕ) (fd : ℕ) where
  abbrev pub park_for_read : Thread → Thread
  park_for_read t = record t { scheduler = wait_for_read current fd t.scheduler }

  abbrev pub park_for_write : Thread → Thread
  park_for_write t = record t { scheduler = wait_for_write current fd t.scheduler }

  -- The loop of `co_read`, at an attempt that gave this outcome.
  unfoldable pub co_read_loop : Outcome → List ((Thread → Thread) × Outcome) → Thread → Call Outcome
  co_read_loop (returned n) later t = finished (returned n) later t
  co_read_loop (failed e) [] t =
      let called = after_call (failed e) t in
      if would_block called.errno
      then parked (park_for_read called)
      else finished (failed e) [] called
  co_read_loop (failed e) ((others, o) ∷ later) t =
      let called = after_call (failed e) t in
      let retried = co_read_loop o later (others (park_for_read called)) in
      if would_block called.errno then retried else finished (failed e) ((others, o) ∷ later) called

  -- The loop of `co_write`. A write of 0 bytes comes to the test of errno too.
  unfoldable pub co_write_loop :
      Outcome → List ((Thread → Thread) × Outcome) → Thread → Call Outcome
  co_write_loop (returned (suc n)) later t = finished (returned (suc n)) later t
  co_write_loop (returned zero) [] t =
      if would_block t.errno then parked (park_for_write t) else finished (failed t.errno) [] t
  co_write_loop (returned zero) ((others, o) ∷ later) t =
      let retried = co_write_loop o later (others (park_for_write t)) in
      if would_block t.errno then retried else finished (failed t.errno) ((others, o) ∷ later) t
  co_write_loop (failed e) [] t =
      let called = after_call (failed e) t in
      if would_block called.errno
      then parked (park_for_write called)
      else finished (failed e) [] called
  co_write_loop (failed e) ((others, o) ∷ later) t =
      let called = after_call (failed e) t in
      let retried = co_write_loop o later (others (park_for_write called)) in
      if would_block called.errno then retried else finished (failed e) ((others, o) ∷ later) called

  module _ (in_scheduler : Bool) (get set : Outcome) where
    -- `co_read(fd, buf, count)`
    unfoldable pub co_read : Outcome → List ((Thread → Thread) × Outcome) → Thread → Call Outcome
    co_read o later t =
        if in_scheduler
        then co_read_loop o later (ensure_nonblocking fd get set t)
        else finished o later (after_call o t)

    -- `co_write(fd, buf, count)`
    unfoldable pub co_write : Outcome → List ((Thread → Thread) × Outcome) → Thread → Call Outcome
    co_write o later t =
        if in_scheduler
        then co_write_loop o later (ensure_nonblocking fd get set t)
        else finished o later (after_call o t)

    -- `co_accept(listen_fd, peer_addr)`: the loop is that of `co_read`, but for the address; `peer`
    -- gives it for the descriptor.
    unfoldable pub co_accept :
        (ℕ → Bytes)
        → Bool
        → Outcome
        → List ((Thread → Thread) × Outcome)
        → Thread
        → Call (Outcome × Option Bytes)
    co_accept peer wants_peer o later t = elim (co_read o later t) [
      | parked t' ↦ parked t'
      | finished (returned conn) rest t' ↦
          finished (returned conn, if wants_peer then some (peer conn) else none) rest t'
      | finished (failed e) rest t' ↦ finished (failed e, none) rest t'
    ]

    -- `co_connect(fd, addr)`: what connect gave, what happens until the coroutine is resumed if it
    -- is, and what getsockopt stored then.
    unfoldable pub co_connect :
        Outcome → Option (Thread → Thread) → Option Errno → Thread → Call Outcome
    co_connect (returned n) others pending t =
        finished (returned n) [] (if in_scheduler then ensure_nonblocking fd get set t else t)
    co_connect (failed e) others pending t =
        let called = after_call (failed e) (ensure_nonblocking fd get set t) in
        if in_scheduler
        then if would_block e || is_einprogress e
          then elim others [
            | none ↦ parked (park_for_write called)
            | some f ↦ elim pending [
              | none ↦ finished (returned 0) [] (f (park_for_write called))
              | some error ↦
                  finished (failed error) [] (after_call (failed error) (f (park_for_write called)))
            ]
          ]
          else finished (failed e) [] called
        else finished (failed e) [] (after_call (failed e) t)

-- The loop of `co_sleep`: whether the timer has fired each time the coroutine is resumed, and how
-- often it gave the control away; no number where it is still asleep.
unfoldable pub sleep_loop : List Bool → Option ℕ
sleep_loop [] = none
sleep_loop (fired ∷ later) = if fired then some 1 else Option.map suc (sleep_loop later)

-- `co_sleep(seconds)` at the time `now`: the timer, whose callback is `wake`, is the loop's. A
-- thread that has no scheduler sleeps itself.
unfoldable pub co_sleep : Bool → ℕ → ℕ → ℕ → List Bool → EventLoop → Option ℕ × EventLoop
co_sleep in_scheduler now delay wake fired l =
    if in_scheduler then (sleep_loop fired, (run_after now delay wake l).1) else (some 0, l)
