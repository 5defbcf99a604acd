-- ===== src/Reactor/EventLoop/Tasks.antt =====
-- `do_pending_tasks`, the turns of the loop and `loop` of hound/src/reactor/event_loop.cpp.
use my_project.Prelude.{
  ℕ, ◌≡◌, ◌≢◌, refl, sym, ap, ◌∙◌, true, false, some, List, [], ◌∷◌, ◌++◌, map, concat,
  append_assoc, append-nil, arith,
}
use my_project.Reactor.TimerWheel.{TimerWheel}
use my_project.Reactor.TimerWheel.Tick.{tick_lem}
use my_project.Reactor.Poller
use my_project.Reactor.Poller.{Selected}
use my_project.Reactor.EventLoop.{
  EventLoop, is_in_loop_thread, wakeup, perform_all, perform, quit_parts, quit, take_tasks,
  run_tasks, do_pending_tasks, dispatch, turn, queue_parts, queue_in_loop, loop,
}

pub queue_in_loop-pending_tasks :
    (thread task : ℕ) (l : EventLoop)
    → (queue_in_loop thread task l).pending_tasks ≡ l.pending_tasks ++ task ∷ []
unfolding queue_in_loop queue_parts perform_all perform wakeup
queue_in_loop-pending_tasks thread task l = ground arith

module _ (run : ℕ → EventLoop → EventLoop) (spawned : ℕ → List ℕ) where
  run_tasks-pending :
      (tasks : List ℕ) (l : EventLoop)
      → ((task : ℕ) (k : EventLoop) → (run task k).pending_tasks ≡ k.pending_tasks ++ spawned task)
      → (run_tasks run tasks l).pending_tasks ≡ l.pending_tasks ++ concat (map spawned tasks)
  unfolding run_tasks
  run_tasks-pending [] l h = sym (append-nil l.pending_tasks)
  run_tasks-pending (task ∷ tasks) l h =
      run_tasks-pending tasks (run task l) h
      ∙ ap (λ p. p ++ concat (map spawned tasks)) (h task l)
      ∙ append_assoc l.pending_tasks (spawned task) (concat (map spawned tasks))

  -- Where each task queues what `spawned` says: after the pending tasks were run, what is queued is
  -- just what they queued, in their order. The tasks that tasks queue wait for the next turn.
  do_pending_tasks-pending :
      (l : EventLoop)
      → ((task : ℕ) (k : EventLoop) → (run task k).pending_tasks ≡ k.pending_tasks ++ spawned task)
      → (do_pending_tasks run l).pending_tasks ≡ concat (map spawned l.pending_tasks)
  unfolding do_pending_tasks take_tasks
  do_pending_tasks-pending l h =
      run_tasks-pending l.pending_tasks
        (record l { pending_tasks = []; calling_pending_tasks = true }) h

module _ (run : ℕ → EventLoop → EventLoop) (handle : ℕ → EventLoop → EventLoop)
    (call : ℕ → TimerWheel ℕ → TimerWheel ℕ) (spawned answered : ℕ → List ℕ) where
  dispatch-pending :
      (channels : List ℕ) (l : EventLoop)
      → ((channel : ℕ) (k : EventLoop)
          → (handle channel k).pending_tasks ≡ k.pending_tasks ++ answered channel)
      → (dispatch run handle call channels l).pending_tasks
        ≡ l.pending_tasks ++ concat (map answered channels)
  unfolding dispatch
  dispatch-pending [] l h = sym (append-nil l.pending_tasks)
  dispatch-pending (channel ∷ channels) l h =
      dispatch-pending channels (handle channel l) h
      ∙ ap (λ p. p ++ concat (map answered channels)) (h channel l)
      ∙ append_assoc l.pending_tasks (answered channel) (concat (map answered channels))

  -- A turn of the loop, over whatever select gives, comes to its end. Where each task queues what
  -- `spawned` says, and handling a channel what `answered` says: what is queued behind the turn is
  -- just what was queued by the tasks that had been queued before it and then by those that the
  -- channels which `poll` reports had queued, in their order; and the loop no longer says that it
  -- is running its tasks.
  pub turn-pending :
      (fuel now : ℕ) (selected : Selected) (l : EventLoop)
      → ((task : ℕ) (k : EventLoop) → (run task k).pending_tasks ≡ k.pending_tasks ++ spawned task)
      → ((channel : ℕ) (k : EventLoop)
          → (handle channel k).pending_tasks ≡ k.pending_tasks ++ answered channel)
      → (l' : EventLoop) × (turn run handle call fuel now selected l ≡ some l')
        × (l'.pending_tasks
            ≡ concat (
                map spawned
                  (l.pending_tasks ++ concat (map answered (Poller.poll selected [] l.poller).0))))
        × (l'.calling_pending_tasks ≡ false)
  unfolding turn do_pending_tasks
  turn-pending fuel now selected l h k =
      let (active, poller) = Poller.poll selected [] l.poller in
      let polled = record l { poller = poller; event_handling = true } in
      let handled = dispatch run handle call active polled in
      let timed = record handled {
        event_handling = false;
        timer_wheel = record handled.timer_wheel { last_tick = now };
      } in
      (
        do_pending_tasks run timed,
        rw (turn, tick_lem call fuel now handled.timer_wheel) refl,
        do_pending_tasks-pending run spawned timed h
            ∙ ap (λ ts. concat (map spawned ts)) (dispatch-pending active polled k),
        refl,
      )

module _ (run : ℕ → EventLoop → EventLoop) (handle : ℕ → EventLoop → EventLoop)
    (call : ℕ → TimerWheel ℕ → TimerWheel ℕ) where
  -- `loop` in another thread than the one that made the loop ends the program.
  pub loop_wrong_thread :
      (thread fuel : ℕ) (events : List (ℕ × Selected)) (l : EventLoop)
      → l.thread_id ≢ thread
      → loop run handle call thread fuel events l ≡ some (record l { aborted = true })
  unfolding loop is_in_loop_thread
  loop_wrong_thread thread fuel events l d = ground arith

  -- Stopping a loop before its thread has entered it has no effect: the loop is entered as if it
  -- had not been stopped, but for the wakeup.
  loop-quit :
      (thread other fuel : ℕ) (events : List (ℕ × Selected)) (l : EventLoop)
      → l.thread_id ≡ thread
      → l.looping ≡ false
      → thread ≢ other
      → loop run handle call thread fuel events (quit other l)
        ≡ loop run handle call thread fuel events (wakeup l)
  unfolding loop is_in_loop_thread quit quit_parts perform_all perform wakeup
  loop-quit thread other fuel events l e f d = ground arith
