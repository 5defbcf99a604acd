-- ===== src/Coro/Scheduler/Waiting.antt =====
-- Who is woken: hound/src/coro/scheduler.cpp.
use my_project.Prelude.{ℕ, ◌≡◌, refl, none, some, List, arith}
use my_project.Prelude.FdMap.{find, assign, erase, find-assign, erase-assign}
use my_project.Coro.Scheduler.{
  Scheduler, schedule, watch_read, watch_write, wait_for_read, wait_for_write, on_fd_ready,
}

pub found : (fd co : ℕ) (m : List (ℕ × ℕ)) → find fd (assign fd co m) ≡ some co
found fd co m = ground (arith, find-assign fd fd co m)

-- A coroutine that waits to read from a descriptor is put at the end of the ready queue when the
-- descriptor is ready, waits no more, and nothing else changes but that whoever waited to read
-- from the descriptor before is forgotten.
pub on_fd_ready-wait_for_read :
    (co fd : ℕ) (s : Scheduler)
    → on_fd_ready fd (wait_for_read (some co) fd s)
      ≡ schedule co (record (watch_read fd s) { waiting_for_read = erase fd s.waiting_for_read })
unfolding on_fd_ready wait_for_read schedule watch_read
on_fd_ready-wait_for_read co fd s =
    rw (on_fd_ready, found fd co s.waiting_for_read, erase-assign fd co s.waiting_for_read) refl

-- The same for a coroutine that waits to write, where none waits to read.
on_fd_ready-wait_for_write :
    (co fd : ℕ) (s : Scheduler)
    → find fd s.waiting_for_read ≡ none
    → on_fd_ready fd (wait_for_write (some co) fd s)
      ≡ schedule co (record (watch_write fd s) { waiting_for_write = erase fd s.waiting_for_write })
unfolding on_fd_ready wait_for_write schedule watch_write
on_fd_ready-wait_for_write co fd s h =
    rw (on_fd_ready, h, found fd co s.waiting_for_write, erase-assign fd co s.waiting_for_write)
      refl

-- Where one coroutine waits to read and another to write, whichever of the two the descriptor is
-- ready for: the reader is put in the queue, and the writer goes on waiting.
on_fd_ready-both :
    (reader writer fd : ℕ) (s : Scheduler)
    → on_fd_ready fd (wait_for_write (some writer) fd (wait_for_read (some reader) fd s))
      ≡ schedule reader (record (watch_write fd (watch_read fd s)) {
        waiting_for_read = erase fd s.waiting_for_read;
        waiting_for_write = assign fd writer s.waiting_for_write;
      })
unfolding on_fd_ready wait_for_read wait_for_write schedule watch_read watch_write
on_fd_ready-both reader writer fd s =
    rw (on_fd_ready, found fd reader s.waiting_for_read, erase-assign fd reader s.waiting_for_read)
      refl
