-- ===== src/Reactor/EventLoop/Awake.antt =====
-- What holds of the loop among other threads at any time: hound/src/reactor/event_loop.cpp.
use my_project.Prelude.{
  ℕ, ◌≡◌, ◌≢◌, ◌⊎◌, inl, inr, refl, sym, ap, ◌∙◌, ◌==◌, ==_iff, Bool, true, false, Bool-cases, List,
  [], ◌∷◌, ◌++◌, append_assoc, append-nil, arith,
}
use my_project.Reactor.EventLoop.{Part, wake, set_quit, wake_other, handle_wakeup_read, take_tasks}
use my_project.Reactor.EventLoop.System.{
  Phase, polling, handling, running, System, begin, go_on, update, pushed, IsFree, OwnStep, woken,
  read, take_all, run_next, over, MayCall, Step, own, event, local, queue, stop, go, Reach, here,
  next, IsStart,
}
use my_project.Reactor.EventLoop.Calls.{
  Call, Next, pushes, wakes, sets_quit, wakes_other, queue_parts-Call, quit_parts-Call, Call-Next,
  Next-Call, update_same, update_other, update-Call, perform-calling, perform-thread_id,
  perform-pending, perform-signalled, wake-signalled,
}

abbrev pub is_running : Phase → Bool
is_running polling = false
is_running handling = false
is_running running = true

-- A thread has pushed a task and is about to wake the loop.
abbrev pub Waking : System → Type 0
Waking s = (k : ℕ) × (s.calls k ≡ wake k ∷ [])

abbrev pub Awake : System → Type 0
Awake s =
    (s.phase ≡ handling) ⊎ ((s.loop.pending_tasks ≡ []) ⊎ ((s.loop.signalled ≡ true) ⊎ Waking s))

pub record Inv (s : System) : Type 0 where
  pub calling : s.loop.calling_pending_tasks ≡ is_running s.phase
  pub calls : (k : ℕ) → Call k (s.calls k)
  pub no_own_call : s.phase ≡ polling → IsFree s
  pub awake : Awake s
  pub taken : (s.phase ≡ running) ⊎ (s.tasks ≡ [])
  pub in_order : s.submitted ≡ s.ran ++ (s.tasks ++ s.loop.pending_tasks)

no_call-Call : (k : ℕ) (l : List Part) → l ≡ [] → Call k l
no_call-Call k l e = rw e Call.no_call

pub start-Inv : {s : System} → IsStart s → Inv s
start-Inv {s} i = record {
  calling = ground arith;
  calls = λ k. no_call-Call k (s.calls k) (i.no_call k);
  no_own_call = λ p. i.no_call s.loop.thread_id;
  awake = inr (inl i.no_pending);
  taken = inr i.no_tasks;
  in_order = ground arith;
}

phase-cases : (p : Phase) → (p ≡ polling) ⊎ ((p ≡ handling) ⊎ (p ≡ running))
phase-cases polling = inl refl
phase-cases handling = inr (inl refl)
phase-cases running = inr (inr refl)

-- Leaving the loop of `do_pending_tasks`, nothing is changed that wakes the loop.
over-Awake : (s : System) → s.phase ≡ running → Awake s → Awake (record s { phase = polling })
over-Awake s p (inl q) = absurd (cc)
over-Awake s p (inr h) = inr h

OwnStep-Inv : {s t : System} → OwnStep s t → Inv s → Inv t
unfolding handle_wakeup_read take_tasks
OwnStep-Inv {s} (woken p w) i = record {
  calling = i.calling ∙ ap is_running p;
  calls = i.calls;
  no_own_call = λ q. absurd (cc);
  awake = inl refl;
  taken = inr (ground (arith, i.taken));
  in_order = i.in_order;
}
OwnStep-Inv {s} (read p f) i = record {
  calling = i.calling;
  calls = i.calls;
  no_own_call = i.no_own_call;
  awake = inl p;
  taken = i.taken;
  in_order = i.in_order;
}
OwnStep-Inv {s} (take_all p f) i = record {
  calling = refl;
  calls = i.calls;
  no_own_call = λ q. absurd (cc);
  awake = inr (inl refl);
  taken = inl refl;
  in_order =
      let e : s.tasks ≡ [] = ground (arith, i.taken) in
      i.in_order
      ∙ ap (◌++◌ s.ran)
          (ap (λ ts. ts ++ s.loop.pending_tasks) e ∙ sym (append-nil s.loop.pending_tasks));
}
OwnStep-Inv {s} (run_next task rest p f e) i = record {
  calling = i.calling;
  calls = i.calls;
  no_own_call = i.no_own_call;
  awake = i.awake;
  taken = inl p;
  in_order =
      i.in_order
      ∙ ap (λ ts. s.ran ++ (ts ++ s.loop.pending_tasks)) e
      ∙ sym (append_assoc s.ran (task ∷ []) (rest ++ s.loop.pending_tasks));
}
OwnStep-Inv {s} (over p f e) i = record {
  calling = refl;
  calls = i.calls;
  no_own_call = λ q. f;
  awake = over-Awake s p i.awake;
  taken = inr e;
  in_order = i.in_order;
}

begin-Awake :
    (thread : ℕ) (parts : List Part) (s : System)
    → s.calls thread ≡ []
    → Awake s
    → Awake (begin thread parts s)
begin-Awake thread parts s e (inl p) = inl p
begin-Awake thread parts s e (inr (inl p)) = inr (inl p)
begin-Awake thread parts s e (inr (inr (inl p))) = inr (inr (inl p))
begin-Awake thread parts s e (inr (inr (inr (k, w)))) =
    let other : k ≢ thread = λ q. absurd (cc) in
    inr (inr (inr (k, update_other s.calls thread k parts other ∙ w)))

begin_not_own :
    (thread : ℕ) (parts : List Part) (s : System)
    → MayCall s thread
    → Inv s
    → s.phase ≡ polling
    → IsFree (begin thread parts s)
begin_not_own thread parts s (e, inl d) i p =
    update_other s.calls thread s.loop.thread_id parts d ∙ i.no_own_call p
begin_not_own thread parts s (e, inr d) i p = absurd (d p)

begin-Inv :
    (thread : ℕ) (parts : List Part) (s : System)
    → MayCall s thread
    → Call thread parts
    → Inv s
    → Inv (begin thread parts s)
begin-Inv thread parts s m c i = record {
  calling = i.calling;
  calls = update-Call s.calls thread parts i.calls c;
  no_own_call = begin_not_own thread parts s m i;
  awake = begin-Awake thread parts s m.0 i.awake;
  taken = i.taken;
  in_order = i.in_order;
}

-- A part that neither pushes a task nor wakes the loop for one.
kept-Awake :
    (thread : ℕ) (part : Part) (rest : List Part) (s : System)
    → s.calls thread ≡ part ∷ rest
    → pushed part ≡ []
    → ((k : ℕ) → part ≢ wake k)
    → Awake s
    → Awake (go_on thread part rest s)
kept-Awake thread part rest s e n d (inl p) = inl p
kept-Awake thread part rest s e n d (inr (inl p)) =
    inr (inl (perform-pending part s.loop ∙ (ap (λ l. l ++ pushed part) p ∙ n)))
kept-Awake thread part rest s e n d (inr (inr (inl p))) =
    inr (inr (inl (perform-signalled part s.loop p)))
kept-Awake thread part rest s e n d (inr (inr (inr (k, w)))) =
    let other : k ≢ thread = λ q. d k (cc) in
    inr (inr (inr (k, update_other s.calls thread k rest other ∙ w)))

-- The loop's thread comes to the wakeup while it handles events or runs tasks only.
wakes-Awake :
    (thread : ℕ) (s : System)
    → s.calls thread ≡ wake thread ∷ []
    → Inv s
    → Awake (go_on thread (wake thread) [] s)
wakes-Awake thread s e i = elim (Bool-cases (s.loop.thread_id == thread)) [
  | inr q ↦ inr (inr (inl (wake-signalled thread s.loop (inl (λ h. ground arith)))))
  | inl q ↦
      let same = (==_iff s.loop.thread_id thread).0 q in
      elim (phase-cases s.phase) [
        | inl p ↦ let free = i.no_own_call p in absurd (cc)
        | inr (inl p) ↦ inl p
        | inr (inr p) ↦
            inr (inr (inl (wake-signalled thread s.loop (inr (i.calling ∙ ap is_running p)))))
      ]
]

go-Awake :
    (thread : ℕ) (part : Part) (rest : List Part) (s : System)
    → Next thread part rest
    → s.calls thread ≡ part ∷ rest
    → Inv s
    → Awake (go_on thread part rest s)
go-Awake thread part rest s (pushes task) e i =
    inr (inr (inr (thread, update_same s.calls thread (wake thread ∷ []))))
go-Awake thread part rest s wakes e i = wakes-Awake thread s e i
go-Awake thread part rest s sets_quit e i =
    kept-Awake thread set_quit (wake_other thread ∷ []) s e refl (λ k q. absurd (cc)) i.awake
go-Awake thread part rest s wakes_other e i =
    kept-Awake thread (wake_other thread) [] s e refl (λ k q. absurd (cc)) i.awake

go-Inv :
    (thread : ℕ) (part : Part) (rest : List Part) (s : System)
    → s.calls thread ≡ part ∷ rest
    → Inv s
    → Inv (go_on thread part rest s)
go-Inv thread part rest s e i =
    let n = Call-Next thread part rest (s.calls thread) (i.calls thread) e in
    record {
      calling = perform-calling part s.loop ∙ i.calling;
      calls = update-Call s.calls thread rest i.calls (Next-Call thread part rest n);
      no_own_call = λ p.
          let free = i.no_own_call p in
          let other : s.loop.thread_id ≢ thread = λ q. absurd (cc) in
          ap (update s.calls thread rest) (perform-thread_id part s.loop)
          ∙ (update_other s.calls thread s.loop.thread_id rest other ∙ free);
      awake = go-Awake thread part rest s n e i;
      taken = i.taken;
      in_order =
          ap (λ l. l ++ pushed part) i.in_order
          ∙ append_assoc s.ran (s.tasks ++ s.loop.pending_tasks) (pushed part)
          ∙ ap (◌++◌ s.ran) (
              append_assoc s.tasks s.loop.pending_tasks (pushed part)
              ∙ ap (◌++◌ s.tasks) (sym (perform-pending part s.loop)));
    }

-- Every step keeps the invariant.
Step-Inv : {s t : System} → Step s t → Inv s → Inv t
Step-Inv (own st) i = OwnStep-Inv st i
Step-Inv {s} (event p) i = record {
  calling = i.calling ∙ ap is_running p;
  calls = i.calls;
  no_own_call = λ q. absurd (cc);
  awake = inl refl;
  taken = inr (ground (arith, i.taken));
  in_order = i.in_order;
}
Step-Inv (local poller wheel handling_events is_looping) i = record {
  calling = i.calling;
  calls = i.calls;
  no_own_call = i.no_own_call;
  awake = i.awake;
  taken = i.taken;
  in_order = i.in_order;
}
Step-Inv {s} (queue thread task m) i = begin-Inv thread _ s m (queue_parts-Call thread task) i
Step-Inv {s} (stop thread m) i = begin-Inv thread _ s m (quit_parts-Call thread) i
Step-Inv {s} (go thread part rest e) i = go-Inv thread part rest s e i

pub Reach-Inv : {s t : System} → Inv s → Reach s t → Inv t
Reach-Inv i here = i
Reach-Inv i (next r st) = Step-Inv st (Reach-Inv i r)
