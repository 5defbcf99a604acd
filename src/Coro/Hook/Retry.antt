-- ===== src/Coro/Hook/Retry.antt =====
-- What a coroutine sees of a call that would block: hound/src/coro/hook.cpp.
use my_project.Prelude.{
  ℕ, zero, suc, ◌≡◌, ◌≢◌, refl, ap, ◌∙◌, true, false, Option, some, List, [], ◌∷◌, ◌++◌,
}
use my_project.Util.Result.{Errno, eagain, eintr, einprogress, other, Outcome, returned, failed}
use my_project.Coro.Scheduler.{schedule, watch_read, on_fd_ready}
use my_project.Coro.Scheduler.Waiting.{on_fd_ready-wait_for_read}
use my_project.Coro.Hook.{
  Thread, parked, finished, would_block, ensure_nonblocking, after_call, park_for_read,
  park_for_write, co_read_loop, co_write_loop, co_read, co_write,
}

-- The attempts of a call that would block as often as something else is let run, and then gives o;
-- `rest` are the later calls' attempts.
abbrev pub first_attempt : List (Thread → Thread) → Outcome → Outcome
first_attempt [] o = o
first_attempt (others ∷ fs) o = failed eagain

abbrev pub later_attempts :
    List (Thread → Thread)
    → Outcome
    → List ((Thread → Thread) × Outcome)
    → List ((Thread → Thread) × Outcome)
later_attempts [] o rest = rest
later_attempts (others ∷ fs) o rest = (others, first_attempt fs o) ∷ later_attempts fs o rest

-- The thread after it was parked once for each of these, and each was let run.
abbrev pub waits : (Thread → Thread) → List (Thread → Thread) → Thread → Thread
waits park [] t = t
waits park (others ∷ fs) t = waits park fs (others (park (after_call (failed eagain) t)))

-- A read that gave data, the end of the stream or an error that is no EAGAIN.
abbrev pub IsDecisive : Outcome → Type 0
IsDecisive (returned n) = Unit
IsDecisive (failed e) = e ≢ eagain

-- A write that wrote something, or failed with an error that is no EAGAIN.
abbrev pub HasWritten : Outcome → Type 0
HasWritten (returned n) = n ≢ 0
HasWritten (failed e) = e ≢ eagain

not-would_block : (e : Errno) → e ≢ eagain → would_block e ≡ false
not-would_block eagain d = absurd (d refl)
not-would_block eintr d = refl
not-would_block einprogress d = refl
not-would_block (other n) d = refl

module _ (current : Option ℕ) (fd : ℕ) where
  co_read_loop-decisive :
      (o : Outcome) (rest : List ((Thread → Thread) × Outcome)) (t : Thread)
      → IsDecisive o
      → co_read_loop current fd o rest t ≡ finished o rest (after_call o t)
  unfolding co_read_loop
  co_read_loop-decisive (returned n) rest t d = refl
  co_read_loop-decisive (failed e) [] t d = rw (not-would_block e d) refl
  co_read_loop-decisive (failed e) ((others, o) ∷ rest) t d = rw (not-would_block e d) refl

  co_read_loop-waits :
      (fs : List (Thread → Thread)) (o : Outcome) (rest : List ((Thread → Thread) × Outcome))
      (t : Thread)
      → IsDecisive o
      → co_read_loop current fd (first_attempt fs o) (later_attempts fs o rest) t
        ≡ finished o rest (after_call o (waits (park_for_read current fd) fs t))
  unfolding co_read_loop
  co_read_loop-waits [] o rest t d = co_read_loop-decisive o rest t d
  co_read_loop-waits (others ∷ fs) o rest t d =
      co_read_loop-waits fs o rest
        (others (park_for_read current fd (after_call (failed eagain) t))) d

  co_write_loop-written :
      (o : Outcome) (rest : List ((Thread → Thread) × Outcome)) (t : Thread)
      → HasWritten o
      → co_write_loop current fd o rest t ≡ finished o rest (after_call o t)
  unfolding co_write_loop
  co_write_loop-written (returned zero) rest t d = absurd (d refl)
  co_write_loop-written (returned (suc n)) rest t d = refl
  co_write_loop-written (failed e) [] t d = rw (not-would_block e d) refl
  co_write_loop-written (failed e) ((others, o) ∷ rest) t d = rw (not-would_block e d) refl

  co_write_loop-waits :
      (fs : List (Thread → Thread)) (o : Outcome) (rest : List ((Thread → Thread) × Outcome))
      (t : Thread)
      → HasWritten o
      → co_write_loop current fd (first_attempt fs o) (later_attempts fs o rest) t
        ≡ finished o rest (after_call o (waits (park_for_write current fd) fs t))
  unfolding co_write_loop
  co_write_loop-waits [] o rest t d = co_write_loop-written o rest t d
  co_write_loop-waits (others ∷ fs) o rest t d =
      co_write_loop-waits fs o rest
        (others (park_for_write current fd (after_call (failed eagain) t))) d

  -- A read in a coroutine whose attempts would block any number of times, the coroutine waiting
  -- for its descriptor and giving the control away each time, returns as soon as an attempt gives
  -- something else: that attempt's result, with no later attempt made. An error that is no EAGAIN,
  -- EINTR among them, is such a result.
  pub co_read-waits :
      (get set : Outcome) (fs : List (Thread → Thread)) (o : Outcome)
      (rest : List ((Thread → Thread) × Outcome)) (t : Thread)
      → IsDecisive o
      → co_read current fd true get set (first_attempt fs o) (later_attempts fs o rest) t
        ≡ finished o rest
            (after_call o (waits (park_for_read current fd) fs (ensure_nonblocking fd get set t)))
  unfolding co_read
  co_read-waits get set fs o rest t d =
      co_read_loop-waits fs o rest (ensure_nonblocking fd get set t) d

  -- The same of a write, where an attempt wrote something or gave an error that is no EAGAIN.
  co_write-waits :
      (get set : Outcome) (fs : List (Thread → Thread)) (o : Outcome)
      (rest : List ((Thread → Thread) × Outcome)) (t : Thread)
      → HasWritten o
      → co_write current fd true get set (first_attempt fs o) (later_attempts fs o rest) t
        ≡ finished o rest
            (after_call o (waits (park_for_write current fd) fs (ensure_nonblocking fd get set t)))
  unfolding co_write
  co_write-waits get set fs o rest t d =
      co_write_loop-waits fs o rest (ensure_nonblocking fd get set t) d

ensure_nonblocking-scheduler :
    (fd : ℕ) (get set : Outcome) (t : Thread)
    → (ensure_nonblocking fd get set t).scheduler ≡ t.scheduler
unfolding ensure_nonblocking
ensure_nonblocking-scheduler fd (failed e) set t = refl
ensure_nonblocking-scheduler fd (returned n) (failed e) t = refl
ensure_nonblocking-scheduler fd (returned n) (returned m) t = refl

-- A coroutine that reads where nothing is to be read is parked, and when the event loop reports
-- its descriptor it is scheduled, behind the coroutines that were ready before.
co_read-woken :
    (co fd : ℕ) (get set : Outcome) (t : Thread)
    → (t' : Thread) × (co_read (some co) fd true get set (failed eagain) [] t ≡ parked t')
      × ((on_fd_ready fd t'.scheduler).ready_queue ≡ t.scheduler.ready_queue ++ co ∷ [])
unfolding co_read co_read_loop schedule watch_read
co_read-woken co fd get set t =
    let start = after_call (failed eagain) (ensure_nonblocking fd get set t) in
    (
      park_for_read (some co) fd start,
      refl,
      ap (λ s. s.ready_queue) (on_fd_ready-wait_for_read co fd start.scheduler)
          ∙ ap (λ s. s.ready_queue ++ co ∷ []) (ensure_nonblocking-scheduler fd get set t),
    )

-- A write of 0 bytes that did not fail is taken for one that would block where errno was EAGAIN
-- from an earlier call: the coroutine is parked, though nothing is left to write.
co_write-nothing :
    (co fd : ℕ) (t : Thread)
    → t.errno ≡ eagain
    → co_write (some co) fd true (returned 0) (returned 0) (returned 0) [] t
      ≡ parked (park_for_write (some co) fd (ensure_nonblocking fd (returned 0) (returned 0) t))
unfolding co_write co_write_loop ensure_nonblocking
co_write-nothing co fd t e = rw e refl
