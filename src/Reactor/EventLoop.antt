-- ===== src/Reactor/EventLoop.antt =====
-- hound/src/reactor/event_loop.h and event_loop.cpp: the loop of one thread, and the tasks that
-- other threads hand to it.
-- A task and a callback are numbers; `run`, `handle` and `call` say what a task, the events of a
-- channel and a timer's callback do. `thread` is the thread that calls. What `select` reports is an
-- argument. `signalled` says that the wakeup descriptor is readable: it is after a write, and is
-- no more after a read. `aborted` says that LOG_FATAL or an assertion ended the program.
pub mod System
pub mod Calls
pub mod Awake
pub mod Wakeup
pub mod Served
pub mod Tasks
pub mod Lifetime
pub mod Tests
use my_project.Prelude.{
  ℕ, zero, suc, ◌+◌, ◌==◌, if◌then◌else◌, Bool, true, false, not, ◌&&◌, ◌||◌, Option, none, some,
  List, [], ◌∷◌, ◌++◌,
}
use my_project.Reactor.TimerWheel
use my_project.Reactor.TimerWheel.{TimerWheel}
use my_project.Reactor.Poller
use my_project.Reactor.Poller.{SelectPoller, Selected}

pub record EventLoop : Type 0 where
  pub poller : SelectPoller
  pub timer_wheel : TimerWheel ℕ
  pub signalled : Bool
  pub looping : Bool
  pub quitting : Bool
  pub event_handling : Bool
  pub calling_pending_tasks : Bool
  pub thread_id : ℕ
  pub pending_tasks : List ℕ
  pub aborted : Bool

-- `EventLoop()` in a thread, whose poller has the channel of the wakeup descriptor
abbrev pub new_loop : ℕ → SelectPoller → TimerWheel ℕ → EventLoop
new_loop thread poller wheel = record {
  poller = poller;
  timer_wheel = wheel;
  signalled = false;
  looping = false;
  quitting = false;
  event_handling = false;
  calling_pending_tasks = false;
  thread_id = thread;
  pending_tasks = [];
  aborted = false;
}

unfoldable pub is_in_loop_thread : ℕ → EventLoop → Bool
is_in_loop_thread thread l = l.thread_id == thread

unfoldable pub assert_in_loop_thread : ℕ → EventLoop → EventLoop
assert_in_loop_thread thread l =
    if is_in_loop_thread thread l then l else record l { aborted = true }

unfoldable pub wakeup : EventLoop → EventLoop
wakeup l = record l { signalled = true }

unfoldable pub handle_wakeup_read : EventLoop → EventLoop
handle_wakeup_read l = record l { signalled = false }

-- What a call of `queue_in_loop` or of `quit` does, in the parts between which other threads may
-- come: the push under the lock, the test behind it with its wakeup, the setting of `quit_`, and
-- the test behind that.
pub data Part : Type 0 where
  push : ℕ → Part
  wake : ℕ → Part
  set_quit : Part
  wake_other : ℕ → Part

unfoldable pub perform : Part → EventLoop → EventLoop
perform (push task) l = record l { pending_tasks = l.pending_tasks ++ task ∷ [] }
perform (wake thread) l =
    if not (is_in_loop_thread thread l) || l.calling_pending_tasks then wakeup l else l
perform set_quit l = record l { quitting = true }
perform (wake_other thread) l = if not (is_in_loop_thread thread l) then wakeup l else l

unfoldable pub perform_all : List Part → EventLoop → EventLoop
perform_all [] l = l
perform_all (part ∷ parts) l = perform_all parts (perform part l)

unfoldable pub queue_parts : ℕ → ℕ → List Part
queue_parts thread task = push task ∷ wake thread ∷ []

unfoldable pub quit_parts : ℕ → List Part
quit_parts thread = set_quit ∷ wake_other thread ∷ []

-- `queue_in_loop(task)`
unfoldable pub queue_in_loop : ℕ → ℕ → EventLoop → EventLoop
queue_in_loop thread task l = perform_all (queue_parts thread task) l

-- `quit()`
unfoldable pub quit : ℕ → EventLoop → EventLoop
quit thread l = perform_all (quit_parts thread) l

-- The part of `do_pending_tasks` under the lock: the tasks are taken out at once.
unfoldable pub take_tasks : EventLoop → List ℕ × EventLoop
take_tasks l = (l.pending_tasks, record l { pending_tasks = []; calling_pending_tasks = true })

unfoldable pub update_channel : ℕ → ℕ → EventLoop → EventLoop
update_channel thread channel l =
    let asserted = assert_in_loop_thread thread l in
    if asserted.aborted
    then asserted
    else record asserted { poller = Poller.update_channel channel asserted.poller }

unfoldable pub remove_channel : ℕ → ℕ → EventLoop → EventLoop
remove_channel thread channel l =
    let asserted = assert_in_loop_thread thread l in
    if asserted.aborted
    then asserted
    else record asserted { poller = Poller.remove_channel channel asserted.poller }

-- `has_channel(channel)`: no answer where the assertion ends the program
unfoldable pub has_channel : ℕ → ℕ → EventLoop → Option Bool
has_channel thread channel l =
    if is_in_loop_thread thread l then some (Poller.has_channel channel l.poller) else none

-- `run_at(time, cb)`, and the timer's id
unfoldable pub run_at : ℕ → ℕ → EventLoop → ℕ × EventLoop
run_at time cb l =
    let (timer, wheel) = TimerWheel.add_timer time cb l.timer_wheel in
    (timer, record l { timer_wheel = wheel })

-- `run_after(delay, cb)` at the time `now`
unfoldable pub run_after : ℕ → ℕ → ℕ → EventLoop → ℕ × EventLoop
run_after now delay cb l =
    let (timer, wheel) = TimerWheel.add_timer (now + delay) cb l.timer_wheel in
    (timer, record l { timer_wheel = wheel })

-- `run_every(interval, cb)` at the time `now`
unfoldable pub run_every : ℕ → ℕ → ℕ → EventLoop → ℕ × EventLoop
run_every now interval cb l =
    let (timer, wheel) = TimerWheel.add_repeating (now + interval) interval cb l.timer_wheel in
    (timer, record l { timer_wheel = wheel })

unfoldable pub cancel_timer : ℕ → EventLoop → EventLoop
cancel_timer timer l = record l { timer_wheel = TimerWheel.cancel timer l.timer_wheel }

module _ (run : ℕ → EventLoop → EventLoop) where
  -- `run_in_loop(task)`
  unfoldable pub run_in_loop : ℕ → ℕ → EventLoop → EventLoop
  run_in_loop thread task l =
      if is_in_loop_thread thread l then run task l else queue_in_loop thread task l

  -- The loop of `do_pending_tasks`.
  unfoldable pub run_tasks : List ℕ → EventLoop → EventLoop
  run_tasks [] l = l
  run_tasks (task ∷ tasks) l = run_tasks tasks (run task l)

  unfoldable pub do_pending_tasks : EventLoop → EventLoop
  do_pending_tasks l =
      let (tasks, taken) = take_tasks l in
      record (run_tasks tasks taken) { calling_pending_tasks = false }

  module _ (handle : ℕ → EventLoop → EventLoop) (call : ℕ → TimerWheel ℕ → TimerWheel ℕ) where
    unfoldable pub dispatch : List ℕ → EventLoop → EventLoop
    dispatch [] l = l
    dispatch (channel ∷ channels) l = dispatch channels (handle channel l)

    -- One turn of the loop of `loop`: `poll` returned at the time `now` with what `select` gave.
    -- The fuel is that of the timers' callbacks.
    unfoldable pub turn : ℕ → ℕ → Selected → EventLoop → Option EventLoop
    turn fuel now selected l =
        let (active, poller) = Poller.poll selected [] l.poller in
        let handled = dispatch active (record l { poller = poller; event_handling = true }) in
        elim (TimerWheel.tick call fuel now handled.timer_wheel) [
          | none ↦ none
          | some wheel ↦
              some
                (do_pending_tasks (record handled { event_handling = false; timer_wheel = wheel }))
        ]

    -- The loop of `loop`, over what `select` gives turn by turn; it is left in `poll` where
    -- nothing more comes.
    unfoldable pub turns : ℕ → List (ℕ × Selected) → EventLoop → Option EventLoop
    turns fuel [] l = some (if l.quitting then record l { looping = false } else l)
    turns fuel ((now, selected) ∷ events) l =
        let rest = turn fuel now selected l in
        if l.quitting
        then some (record l { looping = false })
        else elim rest [ none ↦ none | some l' ↦ turns fuel events l' ]

    -- `loop()`
    unfoldable pub loop : ℕ → ℕ → List (ℕ × Selected) → EventLoop → Option EventLoop
    loop thread fuel events l =
        if not (is_in_loop_thread thread l) || l.looping
        then some (record l { aborted = true })
        else turns fuel events (record l { looping = true; quitting = false })
