-- ===== src/Coro/Scheduler.antt =====
-- hound/src/coro/scheduler.h and scheduler.cpp: the queue of the ready coroutines and the
-- descriptors that the others wait for.
-- The scheduler is the `rest` of the thread's runtime, which its coroutines change. It holds the
-- loop's poller, and the address that the next channel it makes will have.
pub mod Waiting
pub mod Ready
pub mod Queue
pub mod Watching
pub mod Tests
use my_project.Prelude.{
  ℕ, zero, suc, if◌then◌else◌, Bool, true, false, not, ◌||◌, Option, none, some, List, [], ◌∷◌,
  ◌++◌,
}
use my_project.Prelude.FdMap.{find, assign, erase}
use my_project.Reactor.Poller
use my_project.Reactor.Poller.{
  SelectPoller, Callback, read_callback, write_callback, new_channel, write_channel,
}
use my_project.Coro.Coroutine.{State, done, Runtime, construct, resume}

pub record Scheduler : Type 0 where
  pub ready_queue : List ℕ
  pub waiting_for_read : List (ℕ × ℕ)
  pub waiting_for_write : List (ℕ × ℕ)
  pub is_current : Bool
  pub poller : SelectPoller
  pub next_channel : ℕ

-- `schedule(co)`
unfoldable pub schedule : ℕ → Scheduler → Scheduler
schedule co s = record s { ready_queue = s.ready_queue ++ co ∷ [] }

-- `create_coroutine(func)`
unfoldable pub create_coroutine : ℕ → Runtime Scheduler → Runtime Scheduler
create_coroutine func r = record (construct func r) { rest = schedule r.next_id r.rest }

abbrev pub only_read : Callback → Bool
only_read read_callback = true
only_read _ = false

abbrev pub only_write : Callback → Bool
only_write write_callback = true
only_write _ = false

-- `new Channel(loop_, fd)`, with its one callback set
abbrev pub make_channel : ℕ → (Callback → Bool) → Scheduler → SelectPoller
make_channel fd has s = record s.poller {
  store = write_channel s.next_channel (new_channel fd has) s.poller.store;
}

-- The channel that `wait_for_read` makes
unfoldable pub watch_read : ℕ → Scheduler → Scheduler
watch_read fd s = record s {
  poller = Poller.enable_reading s.next_channel (make_channel fd only_read s);
  next_channel = suc s.next_channel;
}

-- The channel that `wait_for_write` makes
unfoldable pub watch_write : ℕ → Scheduler → Scheduler
watch_write fd s = record s {
  poller = Poller.enable_writing s.next_channel (make_channel fd only_write s);
  next_channel = suc s.next_channel;
}

-- `wait_for_read(fd)`, called by the coroutine `current` if any is running
unfoldable pub wait_for_read : Option ℕ → ℕ → Scheduler → Scheduler
wait_for_read none fd s = s
wait_for_read (some co) fd s =
    watch_read fd (record s { waiting_for_read = assign fd co s.waiting_for_read })

unfoldable pub wait_for_write : Option ℕ → ℕ → Scheduler → Scheduler
wait_for_write none fd s = s
wait_for_write (some co) fd s =
    watch_write fd (record s { waiting_for_write = assign fd co s.waiting_for_write })

-- `on_fd_ready(fd)`
unfoldable pub on_fd_ready : ℕ → Scheduler → Scheduler
on_fd_ready fd s = elim (find fd s.waiting_for_read) [
  | some co ↦ schedule co (record s { waiting_for_read = erase fd s.waiting_for_read })
  | none ↦ elim (find fd s.waiting_for_write) [
    | some co ↦ schedule co (record s { waiting_for_write = erase fd s.waiting_for_write })
    | none ↦ s
  ]
]

abbrev pub is_done : State → Bool
is_done done = true
is_done _ = false

abbrev is_empty : List (ℕ × ℕ) → Bool
is_empty [] = true
is_empty (e ∷ m) = false

abbrev no_coroutine : List ℕ → Bool
no_coroutine [] = true
no_coroutine (co ∷ rest) = false

abbrev pub set_current : Bool → Runtime Scheduler → Runtime Scheduler
set_current b r = record r { rest = record r.rest { is_current = b } }

module _ (execute : ℕ → Runtime Scheduler → Option ℕ × Runtime Scheduler) where
  -- One turn of the loop of `tick`, at the front co of the queue.
  unfoldable pub turn : ℕ → List ℕ → Runtime Scheduler → Runtime Scheduler
  turn co queue r =
      let popped = record r { rest = record r.rest { ready_queue = queue } } in
      let resumed = resume execute co (set_current true popped) in
      if is_done (r.coroutines co).state
      then popped
      else if resumed.aborted
      then resumed
      else set_current false resumed

  -- The loop of `tick`, on fuel: a coroutine may schedule others for ever.
  unfoldable pub run_queue : ℕ → Runtime Scheduler → Option (Runtime Scheduler)
  run_queue zero r = none
  run_queue (suc fuel) r = elim r.rest.ready_queue [
    | [] ↦ some r
    | co ∷ queue ↦
        let next = turn co queue r in
        let rest = run_queue fuel next in if next.aborted then some next else rest
  ]

  -- `tick()`, and whether there is more work
  unfoldable pub tick : ℕ → Runtime Scheduler → Option (Bool × Runtime Scheduler)
  tick fuel r = elim r.rest.ready_queue [
    | [] ↦ some (false, r)
    | co ∷ queue ↦ elim (run_queue fuel r) [
      | none ↦ none
      | some r' ↦ some (
        not (is_empty r'.rest.waiting_for_read)
            || not (is_empty r'.rest.waiting_for_write)
            || not (no_coroutine r'.rest.ready_queue),
        r',
      )
    ]
  ]
