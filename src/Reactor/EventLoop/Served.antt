-- ===== src/Reactor/EventLoop/Served.antt =====
-- The tasks that are queued are run: hound/src/reactor/event_loop.cpp among other threads.
use my_project.Prelude.{ℕ, ◌≡◌, false, [], ◌++◌, arith}
use my_project.Reactor.EventLoop.{
  EventLoop, wake, perform, is_in_loop_thread, queue_in_loop, queue_parts, perform_all,
}
use my_project.Reactor.EventLoop.System.{
  polling, System, go_on, OwnStep, woken, read, take_all, run_next, over, OwnReach,
}
use my_project.Reactor.EventLoop.Wakeup.{IsWaking}

-- The system as it is, or after the wakeup that is all that another thread has left of its call.
pub data Woken (s : System) : System → Type 0 where
  already : Woken s s
  by_thread : (k : ℕ) → IsWaking s k → Woken s (go_on k (wake k) [] s)

-- What the loop comes to: the queued tasks were run, in their order, and it waits for the next.
pub record Served (s t : System) : Type 0 where
  pub start : System
  pub is_woken : Woken s start
  pub by_itself : OwnReach start t
  pub ran : t.ran ≡ s.ran ++ s.loop.pending_tasks
  pub none_left : t.loop.pending_tasks ≡ []
  pub in_poll : t.phase ≡ polling

queue_in_loop-asleep :
    (task : ℕ) (l : EventLoop)
    → l.calling_pending_tasks ≡ false
    → l.signalled ≡ false
    → (queue_in_loop l.thread_id task l).signalled ≡ false
unfolding queue_in_loop queue_parts perform_all perform is_in_loop_thread
queue_in_loop-asleep task l c w = ground arith

-- A task that the loop's own thread queues before it enters the loop is not run by that alone: the
-- loop, in `poll` with that task queued, can take no step by itself.
queued_before_loop :
    (task : ℕ) (s : System) {u : System}
    → s.phase ≡ polling
    → s.loop.calling_pending_tasks ≡ false
    → s.loop.signalled ≡ false
    → ¬ OwnStep (record s { loop = queue_in_loop s.loop.thread_id task s.loop }) u
queued_before_loop task s p c w (woken q v) = cc (queue_in_loop-asleep task s.loop c w)
queued_before_loop task s p c w (read q f) = cc
queued_before_loop task s p c w (take_all q f) = cc
queued_before_loop task s p c w (run_next next_task rest q f e) = cc
queued_before_loop task s p c w (over q f e) = cc
