-- ===== src/Reactor/EventLoop/Wakeup.antt =====
-- No task is lost, and no wakeup: hound/src/reactor/event_loop.cpp among other threads.
use my_project.Prelude.{ℕ, ◌≡◌, ◌≢◌, ◌⊎◌, inl, inr, true, [], ◌∷◌, ◌++◌}
use my_project.Reactor.EventLoop.{wake}
use my_project.Reactor.EventLoop.System.{polling, System, go_on, Reach, IsStart}
use my_project.Reactor.EventLoop.Calls.{wake-signalled}
use my_project.Reactor.EventLoop.Awake.{Inv, Awake, start-Inv, Reach-Inv}

-- The thread k, which is not the loop's, has pushed a task; what is left of its call is the wakeup,
-- behind which the descriptor is readable.
pub record IsWaking (s : System) (k : ℕ) : Type 0 where
  pub left : s.calls k ≡ wake k ∷ []
  pub other : s.loop.thread_id ≢ k
  pub signals : (go_on k (wake k) [] s).loop.signalled ≡ true

IsWaking-other :
    (s : System) (k : ℕ) → s.phase ≡ polling → s.calls k ≡ wake k ∷ [] → Inv s → IsWaking s k
IsWaking-other s k p w i =
    let free = i.no_own_call p in
    let other : s.loop.thread_id ≢ k = λ q. absurd (cc) in
    record { left = w; other = other; signals = wake-signalled k s.loop (inl other) }

woken_by :
    (s : System)
    → s.phase ≡ polling
    → s.loop.pending_tasks ≢ []
    → Inv s
    → Awake s
    → (s.loop.signalled ≡ true) ⊎ ((k : ℕ) × IsWaking s k)
woken_by s p d i (inl q) = absurd (cc)
woken_by s p d i (inr (inl e)) = absurd (d e)
woken_by s p d i (inr (inr (inl w))) = inl w
woken_by s p d i (inr (inr (inr (k, w)))) = inr (k, IsWaking-other s k p w i)

-- A loop that was entered with no task queued and no call under way, among threads that queue
-- tasks and stop it at any time, where other threads may come between the push of a task and the
-- wakeup behind it: whenever it stands in `poll` with tasks queued, its wakeup descriptor is
-- readable, or another thread has pushed and has just the wakeup before it, which makes the
-- descriptor readable.
pub no_lost_wakeup :
    {s t : System}
    → IsStart s
    → Reach s t
    → t.phase ≡ polling
    → t.loop.pending_tasks ≢ []
    → (t.loop.signalled ≡ true) ⊎ ((k : ℕ) × IsWaking t k)
no_lost_wakeup {t} i r p d = let v = Reach-Inv (start-Inv i) r in woken_by t p d v v.awake

-- At any time, the tasks that were run, those that were taken and those that are queued, one after
-- the other, are the tasks that were handed in, in their order: none is lost, run twice or
-- overtaken.
pub tasks_in_order :
    {s t : System}
    → IsStart s
    → Reach s t
    → t.submitted ≡ t.ran ++ (t.tasks ++ t.loop.pending_tasks)
tasks_in_order i r = (Reach-Inv (start-Inv i) r).in_order
