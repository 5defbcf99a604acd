-- ===== src/Reactor/EventLoop/Tests.antt =====
-- The theorems on the event loop at a loop of thread 1 to which thread 2 hands task 7.
use my_project.Prelude.{
  ℕ, suc, ◌==◌, ◌≡◌, ◌≢◌, ◌⊎◌, inl, refl, true, false, some, [], ◌∷◌, ◌++◌, append-nil, sym, concat,
  map, arith,
}
use my_project.Reactor.TimerWheel.{TimerWheel, new_wheel}
use my_project.Reactor.Poller.{new_channel, Selected, poll}
use my_project.Reactor.EventLoop.{
  EventLoop, new_loop, push, wake, perform, queue_parts, queue_in_loop, handle_wakeup_read, turn,
}
use my_project.Reactor.EventLoop.System.{
  polling, System, begin, go_on, Reach, here, next, queue, go, IsStart,
}
use my_project.Reactor.EventLoop.Wakeup.{IsWaking, no_lost_wakeup, tasks_in_order}
use my_project.Reactor.EventLoop.Served.{Served}
use my_project.Reactor.EventLoop.Tasks.{queue_in_loop-pending_tasks, turn-pending}

-- The loop of thread 1, whose poller has the channel of the wakeup descriptor 5.
abbrev first_loop : EventLoop
first_loop =
    new_loop 1
      (record {
        store = λ a. new_channel 5 (λ k. true);
        channels = (5, 0) ∷ [];
        channel_list = 0 ∷ [];
      })
      (new_wheel 10 4 5000)

abbrev idle : System
idle = record {
  loop = first_loop;
  phase = polling;
  calls = λ thread. [];
  tasks = [];
  ran = [];
  submitted = [];
}

idle-IsStart : IsStart idle
idle-IsStart = record {
  in_poll = refl;
  no_pending = refl;
  no_call = λ thread. refl;
  no_tasks = refl;
  not_calling = refl;
  none_ran = refl;
  none_submitted = refl;
}

-- Thread 2 has pushed the task 7 and has not come to its wakeup yet.
abbrev between : System
between = go_on 2 (push 7) (wake 2 ∷ []) (begin 2 (queue_parts 2 7) idle)

pushed_only : Reach idle between
unfolding queue_parts
pushed_only =
    next (next here (queue 2 7 (refl, inl (omega arith)))) (go 2 (push 7) (wake 2 ∷ []) refl)

between-pending : between.loop.pending_tasks ≢ []
unfolding perform
between-pending = cc

between-polling : between.phase ≡ polling
between-polling = refl

wakeup_example : (between.loop.signalled ≡ true) ⊎ ((k : ℕ) × IsWaking between k)
wakeup_example = no_lost_wakeup idle-IsStart pushed_only between-polling between-pending

order_example : between.submitted ≡ between.ran ++ (between.tasks ++ between.loop.pending_tasks)
order_example = tasks_in_order idle-IsStart pushed_only

abbrev no_timer : ℕ → TimerWheel ℕ → TimerWheel ℕ
no_timer callback wheel = wheel

-- The wakeup channel 0 reads the descriptor; a task of the loop queues the next number.
abbrev handle_channel : ℕ → EventLoop → EventLoop
handle_channel channel l = handle_wakeup_read l

abbrev run_task : ℕ → EventLoop → EventLoop
run_task task l = queue_in_loop 1 (suc task) l

handle_channel-pending :
    (channel : ℕ) (l : EventLoop) → (handle_channel channel l).pending_tasks ≡ l.pending_tasks ++ []
unfolding handle_wakeup_read
handle_channel-pending channel l = sym (append-nil l.pending_tasks)

-- select reports the wakeup descriptor.
abbrev reported : Selected
reported = record {
  count = some 1;
  readable = λ fd. fd == 5;
  writable = λ fd. false;
  exceptional = λ fd. false;
}

turn_example :
    (l : EventLoop) × (turn run_task handle_channel no_timer 9 6000 reported between.loop ≡ some l)
    × (l.pending_tasks
        ≡ concat (
            map
              (λ task. suc task ∷ [])
              (between.loop.pending_tasks
                ++ concat (map (λ channel. []) (poll reported [] between.loop.poller).0))))
    × (l.calling_pending_tasks ≡ false)
turn_example =
    turn-pending run_task handle_channel no_timer (λ task. suc task ∷ []) (λ channel. []) 9 6000
      reported between.loop (λ task l. queue_in_loop-pending_tasks 1 (suc task) l)
      handle_channel-pending
