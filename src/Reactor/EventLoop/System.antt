-- ===== src/Reactor/EventLoop/System.antt =====
-- The loop of hound/src/reactor/event_loop.cpp among other threads: who may do what, step by step.
-- `calls` is what each thread has left to do of its call of queue_in_loop or quit, part by part:
-- the other threads may come between the push of a task and the wakeup behind it. The flag
-- calling_pending_tasks is set together with taking the tasks, as only the loop's thread reads it.
-- `ran` and `submitted` are no variables of the code: they record which tasks were run, and which
-- were pushed, in their order.
use my_project.Prelude.{
  ℕ, ◌≡◌, ◌≢◌, ◌⊎◌, ◌==◌, if◌then◌else◌, Bool, true, false, List, [], ◌∷◌, ◌++◌,
}
use my_project.Reactor.TimerWheel.{TimerWheel}
use my_project.Reactor.Poller.{SelectPoller}
use my_project.Reactor.EventLoop.{
  EventLoop, Part, push, perform, queue_parts, quit_parts, handle_wakeup_read, take_tasks,
}

-- Where the loop's thread stands: in `poll`, at the events and timers, or in the loop of
-- `do_pending_tasks`.
pub data Phase : Type 0 where
  polling handling running : Phase

pub record System : Type 0 where
  pub loop : EventLoop
  pub phase : Phase
  pub calls : ℕ → List Part
  pub tasks : List ℕ
  pub ran : List ℕ
  pub submitted : List ℕ

abbrev pub update : (ℕ → List Part) → ℕ → List Part → ℕ → List Part
update calls thread parts k = if k == thread then parts else calls k

abbrev pub pushed : Part → List ℕ
pushed (push task) = task ∷ []
pushed _ = []

-- A thread begins a call.
abbrev pub begin : ℕ → List Part → System → System
begin thread parts s = record s { calls = update s.calls thread parts }

-- A thread does the next part of its call, which leaves the others.
abbrev pub go_on : ℕ → Part → List Part → System → System
go_on thread part rest s = record s {
  loop = perform part s.loop;
  calls = update s.calls thread rest;
  submitted = s.submitted ++ pushed part;
}

-- The loop's thread is in no call.
abbrev pub IsFree : System → Type 0
IsFree s = s.calls s.loop.thread_id ≡ []

-- What the loop's thread does by itself: `poll` is left where the wakeup descriptor is readable,
-- the descriptor is read, the tasks are taken and run.
pub data OwnStep (s : System) : System → Type 0 where
  woken : s.phase ≡ polling → s.loop.signalled ≡ true → OwnStep s (record s { phase = handling })
  read : s.phase ≡ handling → IsFree s → OwnStep s (record s { loop = handle_wakeup_read s.loop })
  take_all :
      s.phase ≡ handling
      → IsFree s
      → OwnStep s (record s {
        loop = (take_tasks s.loop).1;
        tasks = (take_tasks s.loop).0;
        phase = running;
      })
  run_next :
      (task : ℕ) (rest : List ℕ)
      → s.phase ≡ running
      → IsFree s
      → s.tasks ≡ task ∷ rest
      → OwnStep s (record s { tasks = rest; ran = s.ran ++ task ∷ [] })
  over :
      s.phase ≡ running
      → IsFree s
      → s.tasks ≡ []
      → OwnStep s
          (record s { loop = record s.loop { calling_pending_tasks = false }; phase = polling })

-- A thread may call queue_in_loop and quit: another thread at any time, the loop's thread from its
-- events and tasks.
abbrev pub MayCall : System → ℕ → Type 0
MayCall s thread = (s.calls thread ≡ []) × ((s.loop.thread_id ≢ thread) ⊎ (s.phase ≢ polling))

-- The same, and what else may happen: `poll` returns for another event or in time, the loop's thread
-- changes what only it uses, and threads begin calls and go on with them, in any order.
pub data Step (s : System) : System → Type 0 where
  own : {t : System} → OwnStep s t → Step s t
  event : s.phase ≡ polling → Step s (record s { phase = handling })
  local :
      (poller : SelectPoller) (wheel : TimerWheel ℕ) (handling_events is_looping : Bool)
      → Step s (record s {
        loop = record s.loop {
          poller = poller;
          timer_wheel = wheel;
          event_handling = handling_events;
          looping = is_looping;
        };
      })
  queue : (thread task : ℕ) → MayCall s thread → Step s (begin thread (queue_parts thread task) s)
  stop : (thread : ℕ) → MayCall s thread → Step s (begin thread (quit_parts thread) s)
  go :
      (thread : ℕ) (part : Part) (rest : List Part)
      → s.calls thread ≡ part ∷ rest
      → Step s (go_on thread part rest s)

pub data Reach (s : System) : System → Type 0 where
  here : Reach s s
  next : {t u : System} → Reach s t → Step t u → Reach s u

pub data OwnReach (s : System) : System → Type 0 where
  here : OwnReach s s
  next : {t u : System} → OwnReach s t → OwnStep t u → OwnReach s u

-- The loop was entered with no task queued and no call under way.
pub record IsStart (s : System) : Type 0 where
  pub in_poll : s.phase ≡ polling
  pub no_pending : s.loop.pending_tasks ≡ []
  pub no_call : (thread : ℕ) → s.calls thread ≡ []
  pub no_tasks : s.tasks ≡ []
  pub not_calling : s.loop.calling_pending_tasks ≡ false
  pub none_ran : s.ran ≡ []
  pub none_submitted : s.submitted ≡ []
