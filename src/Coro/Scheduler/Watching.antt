-- ===== src/Coro/Scheduler/Watching.antt =====
-- What the scheduler's channels watch: hound/src/coro/scheduler.cpp over select_poller.cpp.
use my_project.Prelude.{
  ℕ, suc, ◌<◌, ◌≡◌, ap, sym, ◌∙◌, subst, true, some, Option-cases, [], ◌∷◌, ◌++◌, All-append, inl,
  inr, arith,
}
use my_project.Prelude.FdMap.{find, assign}
use my_project.Reactor.Poller.{Events, find_fd, enable_reading, enable_writing, write_fds}
use my_project.Reactor.Poller.Added.{find_fd-last, Older, Older-suc, made_known, made_new}
use my_project.Coro.Scheduler.Waiting.{found}
use my_project.Coro.Scheduler.{
  Scheduler, make_channel, only_read, only_write, watch_read, watch_write, wait_for_read,
  wait_for_write,
}

-- The channel of `wait_for_read` stands for the descriptor, or one that stood for it before does,
-- and no descriptor is watched for writes that was not before.
watch_read_lem :
    (fd k : ℕ) (s : Scheduler)
    → Older s.next_channel s.poller.channels
    → ((a : ℕ) × (find_fd fd (watch_read fd s).poller.channels ≡ some a))
      × Older (suc s.next_channel) (watch_read fd s).poller.channels
      × (write_fds (watch_read fd s).poller k ≡ write_fds s.poller k)
unfolding watch_read enable_reading
watch_read_lem fd k s o =
    let b = s.next_channel in
    let ev : Events = record ((make_channel fd only_read s).store b).events { read = true } in
    elim (Option-cases (find_fd fd s.poller.channels)) [
      | inr (a, f) ↦
          let m = made_known b fd only_read ev s.poller a k o f in
          (
            (a, ap (find_fd fd) m.0 ∙ f),
            subst (Older (suc b)) (sym m.0) (Older-suc b s.poller.channels o),
            m.1,
          )
      | inl f ↦
          let m = made_new b fd only_read ev s.poller k o (ground arith) f in
          let newest : Older (suc b) (s.poller.channels ++ (fd, b) ∷ []) =
            All-append (λ e. e.1 < suc b) s.poller.channels ((fd, b) ∷ [])
              (Older-suc b s.poller.channels o) (omega arith, tt) in
          (
            (b, ap (find_fd fd) m.0 ∙ find_fd-last fd b s.poller.channels f),
            subst (Older (suc b)) (sym m.0) newest,
            m.1,
          )
    ]

-- Where a coroutine waits to read from a descriptor and another then waits to write to it: the
-- second is in the scheduler's table, and yet no descriptor is watched for writes that was not
-- watched before both.
pub unwatched_writer :
    (reader writer fd k : ℕ) (s : Scheduler)
    → Older s.next_channel s.poller.channels
    → let both = wait_for_write (some writer) fd (wait_for_read (some reader) fd s) in
      (find fd both.waiting_for_write ≡ some writer)
      × (write_fds both.poller k ≡ write_fds s.poller k)
unfolding wait_for_read wait_for_write watch_read watch_write enable_writing
unwatched_writer reader writer fd k s o =
    let s1 = record s { waiting_for_read = assign fd reader s.waiting_for_read } in
    let w = watch_read_lem fd k s1 o in
    let t = watch_read fd s1 in
    let ev : Events = record ((make_channel fd only_write t).store t.next_channel).events {
      write = true;
    } in
    let m = made_known t.next_channel fd only_write ev t.poller w.0.0 k w.1 w.0.1 in
    (found fd writer s.waiting_for_write, m.1 ∙ w.2)
