-- ===== src/Io/Socket/Owners.antt =====
-- Who owns the descriptors of hound/src/io/socket.h: the sockets are made, moved and destroyed in
-- any order.
use my_project.Prelude.{
  ℕ, ◌==◌, ◌≡◌, inl, inr, sym, subst, Bool, true, false, none, some, Bool-cases, Option-cases,
  arith,
}
use my_project.Util.Result.{Errno, Outcome, returned, failed}
use my_project.Io.Socket.{
  Sockets, set_fd, set_flag, system_close, system_open, from_fd, close, move_construct, move_assign,
  destroy, create_tcp, create_udp, accept, set_nonblocking,
}

-- A call that gives a descriptor gives one that is not open.
abbrev pub IsFresh : Outcome → Sockets → Type 0
IsFresh (returned fd) s = s.is_open fd ≡ false
IsFresh (failed e) s = Unit

-- What a program may do with its sockets. A socket is made where there is none, or one that owns
-- nothing.
pub data Step (s : Sockets) : Sockets → Type 0 where
  tcp :
      (ipv6 : Bool) (a : ℕ) (o : Outcome)
      → s.fds a ≡ none
      → IsFresh o s
      → Step s (create_tcp ipv6 a o s).1
  udp : (a : ℕ) (o : Outcome) → s.fds a ≡ none → IsFresh o s → Step s (create_udp a o s).1
  accepted : (a : ℕ) (o : Outcome) → s.fds a ≡ none → IsFresh o s → Step s (accept a o s).1
  moved : (a other : ℕ) → s.fds a ≡ none → Step s (move_construct a other s)
  assigned : (a other : ℕ) → Step s (move_assign a other s)
  closed : (a : ℕ) → Step s (close a s)
  destroyed : (a : ℕ) → Step s (destroy a s)
  unblocked : (on : Bool) (fd : ℕ) (get set : Outcome) → Step s (set_nonblocking on fd get set s)

pub data Reach (s : Sockets) : Sockets → Type 0 where
  here : Reach s s
  next : {t u : Sockets} → Reach s t → Step t u → Reach s u

-- No socket owns a descriptor, and the library has opened none.
pub record IsStart (s : Sockets) : Type 0 where
  pub no_fd : (a : ℕ) → s.fds a ≡ none
  pub none_open : (fd : ℕ) → s.is_open fd ≡ false
  pub no_bad_close : s.bad_close ≡ false

-- Every open descriptor has one owner, and what a socket owns is open.
pub record Owned (s : Sockets) : Type 0 where
  pub owns_open : (a fd : ℕ) → s.fds a ≡ some fd → s.is_open fd ≡ true
  pub one_owner : (a b fd : ℕ) → s.fds a ≡ some fd → s.fds b ≡ some fd → a ≡ b
  pub has_owner : (fd : ℕ) → s.is_open fd ≡ true → (a : ℕ) × (s.fds a ≡ some fd)
  pub no_bad_close : s.bad_close ≡ false

start-Owned : {s : Sockets} → IsStart s → Owned s
start-Owned i = record {
  owns_open = λ a fd h. ground (arith, i.no_fd a);
  one_owner = λ a b fd h k. ground (arith, i.no_fd a);
  has_owner = λ fd h. absurd (ground (arith, i.none_open fd));
  no_bad_close = i.no_bad_close;
}

open_fd-Owned :
    (a fd : ℕ) (s : Sockets)
    → s.fds a ≡ none
    → s.is_open fd ≡ false
    → Owned s
    → Owned (from_fd a fd (system_open (returned fd) s))
unfolding from_fd system_open
open_fd-Owned a fd s e f o = record {
  owns_open = λ b k h. ground (arith, o.owns_open b k);
  one_owner = λ b c k h g. ground (arith, o.one_owner b c k, o.owns_open b k, o.owns_open c k);
  has_owner = λ k h. owner_of k h;
  no_bad_close = o.no_bad_close;
}
  where
    owner_of :
        (k : ℕ)
        → set_flag fd true s.is_open k ≡ true
        → (b : ℕ) × (set_fd a (some fd) s.fds b ≡ some k)
    owner_of k h = elim (Bool-cases (k == fd)) [
      | inl q ↦ (a, ground arith)
      | inr q ↦ let (b, g) = o.has_owner k (ground arith) in (b, ground (arith, g))
    ]

-- The descriptor fd of the place a is closed.
released : ℕ → ℕ → Sockets → Sockets
released a fd s = record s { is_open = set_flag fd false s.is_open; fds = set_fd a none s.fds }

released-Owned : (a fd : ℕ) (s : Sockets) → s.fds a ≡ some fd → Owned s → Owned (released a fd s)
unfolding released
released-Owned a fd s e o = record {
  owns_open = λ b k h. ground (arith, o.owns_open b k, o.one_owner a b fd);
  one_owner = λ b c k h g. ground (arith, o.one_owner b c k);
  has_owner = λ k h. let (b, g) = o.has_owner k (ground arith) in (b, ground (arith, g));
  no_bad_close = o.no_bad_close;
}

close-released :
    (a fd : ℕ) (s : Sockets) → s.fds a ≡ some fd → s.is_open fd ≡ true → close a s ≡ released a fd s
unfolding close system_close released
close-released a fd s e f = ground arith

close-Owned : (a : ℕ) (s : Sockets) → Owned s → Owned (close a s)
unfolding close
close-Owned a s o = elim (Option-cases (s.fds a)) [
  | inl e ↦ rw (e, close) o
  | inr (fd, e) ↦
      subst Owned (sym (close-released a fd s e (o.owns_open a fd e))) (released-Owned a fd s e o)
]

close-none : (a : ℕ) (s : Sockets) → (close a s).fds a ≡ none
unfolding close
close-none a s = ground arith

move_construct-Owned :
    (a other : ℕ) (s : Sockets) → s.fds a ≡ none → Owned s → Owned (move_construct a other s)
unfolding move_construct
move_construct-Owned a other s e o = record {
  owns_open = λ b k h. ground (arith, o.owns_open b k, o.owns_open other k);
  one_owner =
      λ b c k h g. ground (arith, o.one_owner b c k, o.one_owner b other k, o.one_owner other c k);
  has_owner = λ k h. owner_of k h;
  no_bad_close = o.no_bad_close;
}
  where
    owner_of :
        (k : ℕ)
        → s.is_open k ≡ true
        → (b : ℕ) × (set_fd other none (set_fd a (s.fds other) s.fds) b ≡ some k)
    owner_of k h =
        let (b, g) = o.has_owner k h in
        elim (Bool-cases (b == other)) [
          | inl q ↦ (a, ground (arith, g))
          | inr q ↦ (b, ground (arith, g))
        ]

move_assign-Owned : (a other : ℕ) (s : Sockets) → Owned s → Owned (move_assign a other s)
unfolding move_assign move_construct
move_assign-Owned a other s o = elim (Bool-cases (a == other)) [
  | inl q ↦ rw q o
  | inr q ↦ rw q (move_construct-Owned a other (close a s) (close-none a s) (close-Owned a s o))
]

failed-Owned : (e : Errno) (s : Sockets) → Owned s → Owned (record s { errno = e })
failed-Owned e s o = record {
  owns_open = o.owns_open;
  one_owner = o.one_owner;
  has_owner = o.has_owner;
  no_bad_close = o.no_bad_close;
}

set_nonblocking-Owned :
    (on : Bool) (fd : ℕ) (get set : Outcome) (s : Sockets)
    → Owned s
    → Owned (set_nonblocking on fd get set s)
unfolding set_nonblocking
set_nonblocking-Owned on fd (failed e) set s o = failed-Owned e s o
set_nonblocking-Owned on fd (returned n) (failed e) s o = failed-Owned e s o
set_nonblocking-Owned on fd (returned n) (returned m) s o = record {
  owns_open = o.owns_open;
  one_owner = o.one_owner;
  has_owner = o.has_owner;
  no_bad_close = o.no_bad_close;
}

Step-Owned : {s t : Sockets} → Step s t → Owned s → Owned t
unfolding create_tcp create_udp accept system_open
Step-Owned {s} (tcp ipv6 a (returned fd) e f) o = open_fd-Owned a fd s e f o
Step-Owned {s} (tcp ipv6 a (failed err) e f) o = failed-Owned err s o
Step-Owned {s} (udp a (returned fd) e f) o = open_fd-Owned a fd s e f o
Step-Owned {s} (udp a (failed err) e f) o = failed-Owned err s o
Step-Owned {s} (accepted a (returned fd) e f) o = open_fd-Owned a fd s e f o
Step-Owned {s} (accepted a (failed err) e f) o = failed-Owned err s o
Step-Owned {s} (moved a other e) o = move_construct-Owned a other s e o
Step-Owned {s} (assigned a other) o = move_assign-Owned a other s o
Step-Owned {s} (closed a) o = close-Owned a s o
Step-Owned {s} (destroyed a) o = close-Owned a s o
Step-Owned {s} (unblocked on fd get set) o = set_nonblocking-Owned on fd get set s o

Reach-Owned : {s t : Sockets} → Owned s → Reach s t → Owned t
Reach-Owned o here = o
Reach-Owned o (next r st) = Step-Owned st (Reach-Owned o r)

-- However the sockets are made, moved, assigned and destroyed, where the system gives only
-- descriptors that are not open: every descriptor that is open has just one owner, what a socket
-- owns is open, and no descriptor was ever closed that was not open.
pub sockets_own : {s t : Sockets} → IsStart s → Reach s t → Owned t
sockets_own i r = Reach-Owned (start-Owned i) r

-- Where in the end no socket owns a descriptor, none is left open.
no_leak :
    {s t : Sockets}
    → IsStart s
    → Reach s t
    → ((a : ℕ) → t.fds a ≡ none)
    → (fd : ℕ) → t.is_open fd ≡ false
no_leak {s} {t} i r free fd = elim (Bool-cases (t.is_open fd)) [
  | inl h ↦ let (a, g) = (sockets_own i r).has_owner fd h in absurd (ground (arith, free a, g))
  | inr h ↦ h
]
