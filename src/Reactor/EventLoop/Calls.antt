-- ===== src/Reactor/EventLoop/Calls.antt =====
-- The calls of queue_in_loop and quit that are under way: hound/src/reactor/event_loop.cpp among
-- other threads.
use my_project.Prelude.{
  ℕ, ◌≡◌, ◌≢◌, ◌⊎◌, inl, inr, refl, sym, subst, ◌==◌, ==_iff, true, Bool-cases, List, [], ◌∷◌, ◌++◌,
  append-nil, arith,
}
use my_project.Reactor.EventLoop.{
  EventLoop, Part, push, wake, set_quit, wake_other, perform, queue_parts, quit_parts,
  is_in_loop_thread, wakeup,
}
use my_project.Reactor.EventLoop.System.{update, pushed}

-- What a thread may have left to do of its call.
pub data Call (k : ℕ) : List Part → Type 0 where
  no_call : Call k []
  queueing : (task : ℕ) → Call k (push task ∷ wake k ∷ [])
  waking : Call k (wake k ∷ [])
  stopping : Call k (set_quit ∷ wake_other k ∷ [])
  waking_other : Call k (wake_other k ∷ [])

pub queue_parts-Call : (k task : ℕ) → Call k (queue_parts k task)
unfolding queue_parts
queue_parts-Call k task = queueing task

pub quit_parts-Call : (k : ℕ) → Call k (quit_parts k)
unfolding quit_parts
quit_parts-Call k = stopping

-- What the part that comes next can be, and what it leaves to do.
pub data Next (k : ℕ) : Part → List Part → Type 0 where
  pushes : (task : ℕ) → Next k (push task) (wake k ∷ [])
  wakes : Next k (wake k) []
  sets_quit : Next k set_quit (wake_other k ∷ [])
  wakes_other : Next k (wake_other k) []

abbrev NextOf : ℕ → List Part → Type 0
NextOf k [] = Unit
NextOf k (part ∷ rest) = Next k part rest

Call-NextOf : (k : ℕ) (l : List Part) → Call k l → NextOf k l
Call-NextOf k l no_call = tt
Call-NextOf k l (queueing task) = pushes task
Call-NextOf k l waking = wakes
Call-NextOf k l stopping = sets_quit
Call-NextOf k l waking_other = wakes_other

pub Call-Next :
    (k : ℕ) (part : Part) (rest l : List Part) → Call k l → l ≡ part ∷ rest → Next k part rest
Call-Next k part rest l c e = subst (NextOf k) e (Call-NextOf k l c)

pub Next-Call : (k : ℕ) (part : Part) (rest : List Part) → Next k part rest → Call k rest
Next-Call k part rest (pushes task) = waking
Next-Call k part rest wakes = no_call
Next-Call k part rest sets_quit = waking_other
Next-Call k part rest wakes_other = no_call

pub update_same :
    (calls : ℕ → List Part) (k : ℕ) (parts : List Part) → update calls k parts k ≡ parts
update_same calls k parts = ground arith

pub update_other :
    (calls : ℕ → List Part) (k j : ℕ) (parts : List Part) → j ≢ k → update calls k parts j ≡ calls j
update_other calls k j parts d = ground arith

-- Where a thread goes from one state of its call to another, every thread is in some state.
pub update-Call :
    (calls : ℕ → List Part) (k : ℕ) (parts : List Part)
    → ((j : ℕ) → Call j (calls j))
    → Call k parts
    → (j : ℕ) → Call j (update calls k parts j)
update-Call calls k parts h c j = elim (Bool-cases (j == k)) [
  | inl e ↦ rw e (subst (λ i. Call i parts) (sym ((==_iff j k).0 e)) c)
  | inr e ↦ rw e (h j)
]

-- What a part changes of the loop.
pub perform-calling :
    (part : Part) (l : EventLoop) → (perform part l).calling_pending_tasks ≡ l.calling_pending_tasks
unfolding perform wakeup
perform-calling (push task) l = refl
perform-calling (wake thread) l = ground arith
perform-calling set_quit l = refl
perform-calling (wake_other thread) l = ground arith

pub perform-thread_id : (part : Part) (l : EventLoop) → (perform part l).thread_id ≡ l.thread_id
unfolding perform wakeup
perform-thread_id (push task) l = refl
perform-thread_id (wake thread) l = ground arith
perform-thread_id set_quit l = refl
perform-thread_id (wake_other thread) l = ground arith

pub perform-pending :
    (part : Part) (l : EventLoop) → (perform part l).pending_tasks ≡ l.pending_tasks ++ pushed part
unfolding perform wakeup
perform-pending (push task) l = refl
perform-pending (wake thread) l = ground (arith, append-nil l.pending_tasks)
perform-pending set_quit l = sym (append-nil l.pending_tasks)
perform-pending (wake_other thread) l = ground (arith, append-nil l.pending_tasks)

pub perform-signalled :
    (part : Part) (l : EventLoop) → l.signalled ≡ true → (perform part l).signalled ≡ true
unfolding perform wakeup
perform-signalled (push task) l h = h
perform-signalled (wake thread) l h = ground (arith, h)
perform-signalled set_quit l h = h
perform-signalled (wake_other thread) l h = ground (arith, h)

-- The other threads, and the tasks that are run, always wake the loop.
pub wake-signalled :
    (thread : ℕ) (l : EventLoop)
    → (l.thread_id ≢ thread) ⊎ (l.calling_pending_tasks ≡ true)
    → (perform (wake thread) l).signalled ≡ true
unfolding perform wakeup is_in_loop_thread
wake-signalled thread l h = ground arith
