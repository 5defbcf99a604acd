-- ===== src/Http/Server/Connections/Handlers.antt =====
-- The handlers of hound/src/http/http_server.cpp one after the other, in any order.
use my_project.Prelude.{
  ℕ, ◌≡◌, inl, inr, refl, subst, ap, ◌∙◌, Bool, true, false, if◌then◌else◌, Option, none, some,
  List, [], ◌∷◌, Bytes, Option-cases, arith,
}
use my_project.Prelude.FdMap.{find, find-assign, is_pending, is_pending-append}
use my_project.Http.Server.{
  HttpServer, Connection, refresh_timeout, on_accept, on_close, on_message,
}
use my_project.Http.Server.Connections.{
  Connections, entered, put_back, accept_connection, close_connection, run_erases, message,
  stop_all, stop, start,
}
use my_project.Http.Server.Connections.Kept.{AllKept, on_message-Kept}
use my_project.Http.Server.Connections.Erased.{
  erase_all-find, IsValid, called-IsValid, entered-Kept, accept_connection-IsValid,
  close_connection-IsValid, run_erases-IsValid,
}

abbrev AllValid : Option Connections → Type 0
AllValid none = Unit
AllValid (some t) = IsValid t

module _ (order : List (Bytes × Bytes) → List (Bytes × Bytes)) (write : Bytes → Bool)
    (file : Bytes → Option Bytes) (server : HttpServer) where
  -- What happens to a server that runs: a client's socket is accepted, whose descriptor the system
  -- had not given to anything else, bytes come, a connection ends, the loop runs the deletions.
  pub data Step (t : Connections) : Connections → Type 0 where
    accepted : (now fd : ℕ) → t.is_open fd ≡ false → Step t (accept_connection now fd t)
    came :
        (fuel now fd : ℕ) (read : ℕ → Option Bytes) {u : Connections}
        → message order write file server fuel now read fd t ≡ some u
        → Step t u
    ended : (fd : ℕ) → Step t (close_connection fd t)
    erased : Step t (run_erases t)

  pub data Reach (t : Connections) : Connections → Type 0 where
    here : Reach t t
    next : {u v : Connections} → Reach t u → Step u v → Reach t v

  message-AllValid :
      (fuel now fd : ℕ) (read : ℕ → Option Bytes) (t : Connections)
      → IsValid t
      → AllValid (message order write file server fuel now read fd t)
  unfolding message
  message-AllValid fuel now fd read t v = elim (Option-cases (find fd t.connections)) [
    | inl e ↦ rw (e, message) v
    | inr (c, e) ↦
        elim (Option-cases (on_message order write file server fuel now read (entered c t))) [
          | inl q ↦ rw (e, message) (rw q tt)
          | inr (c', q) ↦
              let kept = subst (AllKept fd c.closed) q (
                on_message-Kept fd c.closed order write file server fuel now read (entered c t)
                  (entered-Kept fd c t v e)) in
              rw (e, message) (rw q (called-IsValid fd c c' t v e kept))
        ]
  ]

  Step-IsValid : {t u : Connections} → Step t u → IsValid t → IsValid u
  Step-IsValid {t} (accepted now fd free) v = accept_connection-IsValid now fd t free v
  Step-IsValid {t} (came fuel now fd read e) v =
      subst AllValid e (message-AllValid fuel now fd read t v)
  Step-IsValid {t} (ended fd) v = close_connection-IsValid fd t v
  Step-IsValid {t} erased v = run_erases-IsValid t v

  -- However clients come, send and go, as long as the server is not stopped: the map holds every
  -- connection under its own descriptor, the descriptors that are open are just those of the map,
  -- and a deletion waits in the loop for just those connections that are closed.
  pub Reach-IsValid : {t u : Connections} → IsValid t → Reach t u → IsValid u
  Reach-IsValid v here = v
  Reach-IsValid v (next r st) = Step-IsValid st (Reach-IsValid v r)

stop_all-erases : (cs : List (ℕ × Connection)) (t : Connections) → (stop_all cs t).erases ≡ t.erases
unfolding stop_all
stop_all-erases [] t = refl
stop_all-erases ((fd, c) ∷ cs) t = stop_all-erases cs _

stop-erases : (t : Connections) → (stop t).erases ≡ t.erases
unfolding stop
stop-erases t = ground (arith, stop_all-erases t.connections (record t { running = false }))

close_connection-is_pending :
    (fd : ℕ) (c : Connection) (t : Connections)
    → find fd t.connections ≡ some c
    → c.closed ≡ false
    → is_pending fd (close_connection fd t).erases ≡ true
unfolding close_connection put_back on_close
close_connection-is_pending fd c t e o =
    rw (e, close_connection) (rw o (ground (arith, is_pending-append fd t.erases (fd ∷ []))))

-- The server is stopped and started while the deletion of a connection that was just closed waits
-- in the loop, and the next client gets the same descriptor: the new connection is in the map, it
-- is not closed, and yet the loop deletes it.
erases_new_connection :
    (now fd : ℕ) (c : Connection) (t : Connections)
    → find fd t.connections ≡ some c
    → c.closed ≡ false
    → let stopped = start (stop (close_connection fd t)) in
      let new = on_accept now fd stopped.wheel in
      (find fd (accept_connection now fd stopped).connections ≡ some new)
      × (new.closed ≡ false)
      × (find fd (run_erases (accept_connection now fd stopped)).connections ≡ none)
unfolding accept_connection put_back run_erases start on_accept refresh_timeout
erases_new_connection now fd c t e o =
    let stopped = start (stop (close_connection fd t)) in
    let waits : is_pending fd stopped.erases ≡ true =
      ap (is_pending fd) (stop-erases (close_connection fd t))
      ∙ close_connection-is_pending fd c t e o in
    let gone : is_pending fd (accept_connection now fd stopped).erases ≡ true =
      ground (arith, waits, is_pending-append fd stopped.erases []) in
    (
      ground (arith, find-assign fd fd (on_accept now fd stopped.wheel) stopped.connections),
      refl,
      erase_all-find fd (accept_connection now fd stopped).erases (accept_connection now fd stopped)
          ∙ ap (λ b. if b then none else find fd (accept_connection now fd stopped).connections)
              gone,
    )
