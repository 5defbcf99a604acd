-- ===== src/Http/Server/Connections/Erased.antt =====
-- Which connections of hound/src/http/http_server.cpp the queued deletions remove.
use my_project.Prelude.{
  ℕ, zero, suc, ◌==◌, ltb, ◌≡◌, ◌≢◌, inl, inr, refl, sym, subst, ap, ◌∙◌, Bool, true, false,
  if◌then◌else◌, Option, none, some, List, [], ◌∷◌, replicate, Bool-cases, Option-cases, arith,
}
use my_project.Prelude.FdMap.{find, find-assign, find-erase, is_pending, is_pending-append}
use my_project.Http.Server.{Connection, refresh_timeout, on_accept, on_close}
use my_project.Http.Server.Connections.{
  Connections, set_open, entered, put_back, accept_connection, close_connection, erase_connection,
  erase_all, run_erases,
}
use my_project.Http.Server.Connections.Kept.{Kept, on_close-Kept}

abbrev pub is_closing : Option Connection → Bool
is_closing none = false
is_closing (some c) = c.closed

abbrev pub is_some : Option Connection → Bool
is_some none = false
is_some (some c) = true

abbrev pub StandsFor : ℕ → Option Connection → Type 0
StandsFor fd none = Unit
StandsFor fd (some c) = c.fd ≡ fd

-- The map holds each connection under its descriptor; the descriptors that are open are those of
-- the map; and a deletion waits for just those connections that are closed.
pub record IsValid (t : Connections) : Type 0 where
  pub keys : (fd : ℕ) → StandsFor fd (find fd t.connections)
  pub open_ones : (fd : ℕ) → t.is_open fd ≡ is_some (find fd t.connections)
  pub pending_ones : (fd : ℕ) → is_pending fd t.erases ≡ is_closing (find fd t.connections)

is_pending-replicate :
    (fd k n : ℕ) → is_pending fd (replicate n k) ≡ (if fd == k then ltb 0 n else false)
is_pending-replicate fd k zero = ground arith
is_pending-replicate fd k (suc n) = ground (arith, is_pending-replicate fd k n)

-- A call on a connection of the map, or on a new one, keeps the map valid.
put_back-IsValid :
    (fd : ℕ) (c : Connection) (t : Connections)
    → Kept fd (is_closing (find fd t.connections)) c
    → ((j : ℕ) → j ≢ fd → t.is_open j ≡ is_some (find j t.connections))
    → t.is_open fd ≡ true
    → ((j : ℕ) → StandsFor j (find j t.connections))
    → ((j : ℕ) → is_pending j t.erases ≡ is_closing (find j t.connections))
    → IsValid (put_back fd c t)
unfolding put_back
put_back-IsValid fd c t k others opened keys pending = record {
  keys = λ j. subst (StandsFor j) (sym (find-assign j fd c t.connections)) (key j);
  open_ones = λ j. ground (arith, find-assign j fd c t.connections, others j);
  pending_ones = λ j. ground (
    arith,
    find-assign j fd c t.connections,
    pending j,
    is_pending-append j t.erases (replicate c.erases fd),
    is_pending-replicate j fd c.erases,
    k.tracked,
  );
}
  where
    key : (j : ℕ) → StandsFor j (if j == fd then some c else find j t.connections)
    key j = elim (Bool-cases (j == fd)) [
      | inl e ↦ rw e (k.same_fd ∙ ground arith)
      | inr e ↦ rw e (keys j)
    ]

pub accept_connection-IsValid :
    (now fd : ℕ) (t : Connections)
    → t.is_open fd ≡ false
    → IsValid t
    → IsValid (accept_connection now fd t)
unfolding accept_connection on_accept refresh_timeout
accept_connection-IsValid now fd t free v =
    put_back-IsValid fd (on_accept now fd t.wheel)
      (record t { is_open = set_open fd true t.is_open })
      (record {
        same_fd = refl;
        tracked = ground (arith, v.open_ones fd, none_closing (find fd t.connections));
      })
      (λ j d. ground (arith, v.open_ones j)) (ground arith) v.keys v.pending_ones
  where
    none_closing : (o : Option Connection) → is_some o ≡ false → is_closing o ≡ false
    none_closing none h = refl
    none_closing (some c) h = cc

-- A call that found its connection.
pub called-IsValid :
    (fd : ℕ) (c c' : Connection) (t : Connections)
    → IsValid t
    → find fd t.connections ≡ some c
    → Kept fd c.closed c'
    → IsValid (put_back fd c' t)
called-IsValid fd c c' t v e k =
    put_back-IsValid fd c' t (subst (λ o. Kept fd (is_closing o) c') (sym e) k)
      (λ j d. v.open_ones j) (v.open_ones fd ∙ ap is_some e) v.keys v.pending_ones

pub entered-Kept :
    (fd : ℕ) (c : Connection) (t : Connections)
    → IsValid t
    → find fd t.connections ≡ some c
    → Kept fd c.closed (entered c t)
entered-Kept fd c t v e = record {
  same_fd = subst (StandsFor fd) e (v.keys fd);
  tracked = ground arith;
}

pub close_connection-IsValid :
    (fd : ℕ) (t : Connections) → IsValid t → IsValid (close_connection fd t)
unfolding close_connection
close_connection-IsValid fd t v = elim (Option-cases (find fd t.connections)) [
  | inl e ↦ rw (e, close_connection) v
  | inr (c, e) ↦
      rw (e, close_connection)
        (called-IsValid fd c (on_close (entered c t)) t v e
          (on_close-Kept fd c.closed (entered c t) (entered-Kept fd c t v e)))
]

erase_connection-find :
    (j fd : ℕ) (t : Connections)
    → find j (erase_connection fd t).connections ≡ (if j == fd then none else find j t.connections)
unfolding erase_connection
erase_connection-find j fd t = find-erase j fd t.connections

pub erase_all-find :
    (j : ℕ) (fds : List ℕ) (t : Connections)
    → find j (erase_all fds t).connections
      ≡ (if is_pending j fds then none else find j t.connections)
unfolding erase_all
erase_all-find j [] t = refl
erase_all-find j (fd ∷ fds) t =
    ground (arith, erase_all-find j fds (erase_connection fd t), erase_connection-find j fd t)

erase_connection-open :
    (fd : ℕ) (t : Connections)
    → ((j : ℕ) → t.is_open j ≡ is_some (find j t.connections))
    → (j : ℕ)
    → (erase_connection fd t).is_open j ≡ is_some (find j (erase_connection fd t).connections)
unfolding erase_connection
erase_connection-open fd t h j = ground (arith, h j, h fd, find-erase j fd t.connections)

erase_all-open :
    (fds : List ℕ) (t : Connections)
    → ((j : ℕ) → t.is_open j ≡ is_some (find j t.connections))
    → (j : ℕ) → (erase_all fds t).is_open j ≡ is_some (find j (erase_all fds t).connections)
unfolding erase_all
erase_all-open [] t h j = h j
erase_all-open (fd ∷ fds) t h j =
    erase_all-open fds (erase_connection fd t) (erase_connection-open fd t h) j

-- The queued deletions remove just the connections that are closed, and close their descriptors;
-- every other connection, and its descriptor, stays as it is.
pub run_erases_lem :
    (t : Connections)
    → IsValid t
    → (fd : ℕ)
    → (find fd (run_erases t).connections
        ≡ (if is_closing (find fd t.connections) then none else find fd t.connections))
      × ((run_erases t).is_open fd ≡ is_some (find fd (run_erases t).connections))
unfolding run_erases
run_erases_lem t v fd = (
  erase_all-find fd t.erases t
      ∙ ap (λ b. if b then none else find fd t.connections) (v.pending_ones fd),
  erase_all-open t.erases t v.open_ones fd,
)

kept_ones-StandsFor :
    (fd : ℕ) (b : Bool) (o : Option Connection)
    → StandsFor fd o
    → StandsFor fd (if b then none else o)
kept_ones-StandsFor fd true o h = tt
kept_ones-StandsFor fd false o h = h

kept_ones-is_closing :
    (o : Option Connection) → is_closing (if is_closing o then none else o) ≡ false
kept_ones-is_closing none = refl
kept_ones-is_closing (some c) = ground arith

pub run_erases-IsValid : (t : Connections) → IsValid t → IsValid (run_erases t)
unfolding run_erases
run_erases-IsValid t v = record {
  keys = λ fd. subst (StandsFor fd) (sym (run_erases_lem t v fd).0) (
      kept_ones-StandsFor fd (is_closing (find fd t.connections)) (find fd t.connections)
        (v.keys fd));
  open_ones = λ fd. (run_erases_lem t v fd).1;
  pending_ones = λ fd.
      sym (ap is_closing (run_erases_lem t v fd).0 ∙ kept_ones-is_closing (find fd t.connections));
}
