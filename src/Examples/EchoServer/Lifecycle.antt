-- ===== src/Examples/EchoServer/Lifecycle.antt =====
-- The connections of hound/examples/echo_server_reactor.cpp from accept to deletion.
use my_project.Prelude.{
  ℕ, suc, ◌<◌, ◌≡◌, ap, sym, ◌∙◌, subst, ◌==◌, ==_iff, if◌then◌else◌, Bool, true, false, Bool-cases,
  Option, none, some, Option-cases, List, [], ◌∷◌, Bytes, inl, inr, arith,
}
use my_project.Prelude.FdMap.{find, find-assign, find-erase}
use my_project.Reactor.Poller.{Callback}
use my_project.Reactor.EventLoop.{EventLoop}
use my_project.Examples.EchoServer.{
  Connection, EchoServer, accept_connection, erase_task, delete_connection, run_tasks,
  do_pending_tasks, timed_out, call, on_accept,
}
use my_project.Examples.EchoServer.Handlers.{
  Kept, refresh_timeout-Kept, close_connection-Kept, call-Kept,
}

abbrev pub is_some : Option ℕ → Bool
is_some none = false
is_some (some a) = true

-- An object of the map stands for the descriptor under which the map has it.
abbrev pub StandsFor : (ℕ → Connection) → ℕ → ℕ → Option ℕ → Type 0
StandsFor objects next fd none = Unit
StandsFor objects next fd (some a) = ((objects a).fd ≡ fd) × (a < next)

pub record IsValid (s : EchoServer) : Type 0 where
  pub keys : (fd : ℕ) → StandsFor s.objects s.next_object fd (find fd s.connections)
  pub open_ones : (fd : ℕ) → s.is_open fd ≡ is_some (find fd s.connections)

StandsFor-Kept :
    (s t : EchoServer) (fd : ℕ) (o : Option ℕ)
    → Kept s t
    → StandsFor s.objects s.next_object fd o
    → StandsFor t.objects t.next_object fd o
StandsFor-Kept s t fd none k h = tt
StandsFor-Kept s t fd (some a) k h = (k.same_fds a ∙ h.0, subst (λ n. a < n) (sym k.same_next) h.1)

pub Kept-IsValid : (s t : EchoServer) → Kept s t → IsValid s → IsValid t
Kept-IsValid s t k v = record {
  keys = λ fd.
      subst (λ m. StandsFor t.objects t.next_object fd (find fd m)) (sym k.same_connections)
        (StandsFor-Kept s t fd (find fd s.connections) k (v.keys fd));
  open_ones = λ fd.
      ap (λ f. f fd) k.same_open
      ∙ v.open_ones fd
      ∙ ap (λ m. is_some (find fd m)) (sym k.same_connections);
}

-- A new object at the next address.
StandsFor-new :
    (objects : ℕ → Connection) (n k : ℕ) (c : Connection) (o : Option ℕ)
    → StandsFor objects n k o
    → StandsFor (λ x. if x == n then c else objects x) (suc n) k o
StandsFor-new objects n k c none h = tt
StandsFor-new objects n k c (some a) h = (ground (arith, h.0, h.1), omega (arith, h.1))

accept_connection-IsValid :
    (now fd : ℕ) (s : EchoServer)
    → s.is_open fd ≡ false
    → IsValid s
    → IsValid (accept_connection now fd s)
unfolding accept_connection
accept_connection-IsValid now fd s free v =
    Kept-IsValid _ _ (refresh_timeout-Kept now s.next_object _) record {
      keys = λ k. elim (Bool-cases (k == fd)) [
        | inl e ↦
            rw (find-assign k fd s.next_object s.connections)
              (rw e (ground (arith, (==_iff k fd).0 e), omega arith))
        | inr e ↦
            rw (find-assign k fd s.next_object s.connections)
              (rw e (StandsFor-new s.objects s.next_object k _ (find k s.connections) (v.keys k)))
      ];
      open_ones = λ k. ground (arith, find-assign k fd s.next_object s.connections, v.open_ones k);
    }

pub found-fd :
    (fd a : ℕ) (s : EchoServer) → find fd s.connections ≡ some a → IsValid s → (s.objects a).fd ≡ fd
found-fd fd a s e v = (subst (StandsFor s.objects s.next_object fd) e (v.keys fd)).0

pub erase_task-IsValid : (fd : ℕ) (s : EchoServer) → IsValid s → IsValid (erase_task fd s)
unfolding erase_task delete_connection
erase_task-IsValid fd s v = elim (Option-cases (find fd s.connections)) [
  | inl e ↦ rw (e, erase_task) v
  | inr (a, e) ↦
      rw (e, erase_task)
        record {
          keys = λ k. elim (Bool-cases (k == fd)) [
            | inl q ↦ rw (find-erase k fd s.connections) (rw q tt)
            | inr q ↦ rw (find-erase k fd s.connections) (rw q (v.keys k))
          ];
          open_ones = λ k.
              ground (arith, find-erase k fd s.connections, v.open_ones k, found-fd fd a s e v);
        }
]

pub run_tasks-IsValid : (fds : List ℕ) (s : EchoServer) → IsValid s → IsValid (run_tasks fds s)
unfolding run_tasks
run_tasks-IsValid [] s v = v
run_tasks-IsValid (fd ∷ fds) s v =
    run_tasks-IsValid fds (erase_task fd s) (erase_task-IsValid fd s v)

-- A change of the loop alone.
with_loop-IsValid : (l : EventLoop) (s : EchoServer) → IsValid s → IsValid (record s { loop = l })
with_loop-IsValid l s v = record { keys = v.keys; open_ones = v.open_ones }

pub do_pending_tasks-IsValid : (s : EchoServer) → IsValid s → IsValid (do_pending_tasks s)
unfolding do_pending_tasks
do_pending_tasks-IsValid s v =
    with_loop-IsValid _ _ (run_tasks-IsValid _ _ (with_loop-IsValid _ s v))

module _ (write : Bytes → Bool) where
  -- What happens to the server: a client's socket is accepted, whose descriptor the system had not
  -- given to anything else, or none is there; the channel of a descriptor calls back; a timer
  -- fires; the loop runs the queued tasks.
  pub data Step (s : EchoServer) : EchoServer → Type 0 where
    accepted : (now fd : ℕ) → s.is_open fd ≡ false → Step s (on_accept now (some fd) s)
    none_there : (now : ℕ) → Step s (on_accept now none s)
    called :
        (now fd : ℕ) (read : ℕ → Option Bytes) (k : Callback) → Step s (call write now fd read k s)
    fired : (a : ℕ) → Step s (timed_out a s)
    ran : Step s (do_pending_tasks s)

  pub data Reach (s : EchoServer) : EchoServer → Type 0 where
    here : Reach s s
    next : {t u : EchoServer} → Reach s t → Step t u → Reach s u

  Step-IsValid : {s t : EchoServer} → Step s t → IsValid s → IsValid t
  unfolding on_accept timed_out
  Step-IsValid {s} (accepted now fd free) v = accept_connection-IsValid now fd s free v
  Step-IsValid {s} (none_there now) v = v
  Step-IsValid {s} (called now fd read k) v = Kept-IsValid s _ (call-Kept write now fd read k s) v
  Step-IsValid {s} (fired a) v = Kept-IsValid s _ (close_connection-Kept a s) v
  Step-IsValid {s} ran v = do_pending_tasks-IsValid s v

  -- From a valid server, however clients come, send and go, timers fire and tasks run: the map holds
  -- every connection under its own descriptor, and the descriptors that are open are just those of
  -- the map.
  pub Reach-IsOpen : {s t : EchoServer} → IsValid s → Reach s t → IsValid t
  Reach-IsOpen v here = v
  Reach-IsOpen v (next r st) = Step-IsValid st (Reach-IsOpen v r)
