-- ===== src/Coro/Coroutine/Parked.antt =====
-- The coroutines between two resumptions, and the parts of a resumption: hound/src/coro/coroutine.cpp.
use my_project.Prelude.{
  ℕ, ◌<◌, ◌≤◌, ◌≡◌, ◌≢◌, ◌⊎◌, inl, inr, refl, sym, ◌∙◌, subst, ◌==◌, true, false, Bool-cases, ltb,
  ltb→lt, none, some, Option-cases, arith,
}
use my_project.Coro.Coroutine.{
  ready, running, suspended, done, blank, at_entry, left, left_last, Coroutine, Runtime, construct,
  write_coroutine, yield, enter, back, make, new_coroutine,
}

-- A coroutine that does not run: it was never entered, it is left at a position, or it has ended
-- and its function is released.
pub data IsParked : Coroutine → Type 0 where
  fresh :
      (c : Coroutine) (func : ℕ)
      → c.state ≡ ready
      → c.func ≡ some func
      → c.context ≡ blank
      → IsParked c
  yielded :
      (c : Coroutine) (position : ℕ) → c.state ≡ suspended → c.context ≡ left position → IsParked c
  ended : (c : Coroutine) → c.state ≡ done → c.func ≡ none → c.context ≡ left_last → IsParked c

-- A coroutine whose next resumption runs from the position.
pub data StartsAt (position : ℕ) : Coroutine → Type 0 where
  unentered :
      (c : Coroutine)
      → c.state ≡ ready
      → c.func ≡ some position
      → c.context ≡ blank
      → StartsAt position c
  parked_at :
      (c : Coroutine) → c.state ≡ suspended → c.context ≡ left position → StartsAt position c

pub IsParked→StartsAt :
    (c : Coroutine) → IsParked c → c.state ≢ done → (position : ℕ) × StartsAt position c
IsParked→StartsAt _ (fresh c func a b e) d = (func, unentered c a b e)
IsParked→StartsAt _ (yielded c p a b) d = (p, parked_at c a b)
IsParked→StartsAt _ (ended c a b e) d = absurd (d a)

not-same : (x co : ℕ) → x ≢ co → (x == co) ≡ false
not-same x co d = ground arith

module _ {S : Type 0} where
  -- The thread while its scheduler has the control.
  pub record IsIdle (r : Runtime S) : Type 0 where
    pub no_current : r.current ≡ none
    pub alive : r.aborted ≡ false
    pub parked : (co : ℕ) → co < r.next_id → IsParked (r.coroutines co)

  -- What a function may do to the coroutines until it yields or returns: it may make new ones, and
  -- it resumes none.
  pub record Extends (r r' : Runtime S) : Type 0 where
    pub same_current : r'.current ≡ r.current
    pub same_alive : r'.aborted ≡ r.aborted
    pub more : r.next_id ≤ r'.next_id
    pub same : (co : ℕ) → co < r.next_id → r'.coroutines co ≡ r.coroutines co
    pub new : (co : ℕ) → r.next_id ≤ co → co < r'.next_id → IsParked (r'.coroutines co)

  -- Making a coroutine is something a function may do.
  pub construct-Extends : (func : ℕ) (r : Runtime S) → Extends r (construct func r)
  unfolding construct
  construct-Extends func r = record {
    same_current = refl;
    same_alive = refl;
    more = omega arith;
    same = λ co l. ground arith;
    new = λ co l m.
        let e : co ≡ r.next_id = omega arith in
        subst IsParked (ground arith) (fresh (new_coroutine func) func refl refl refl);
  }

  -- All but the coroutine co is as in an idle thread, and co is entered.
  pub record IsEntered (co : ℕ) (r : Runtime S) : Type 0 where
    pub is_current : r.current ≡ some co
    pub alive : r.aborted ≡ false
    pub exists : co < r.next_id
    pub others : (x : ℕ) → x < r.next_id → x ≢ co → IsParked (r.coroutines x)

  pub Extends-IsEntered :
      (co : ℕ) (r r' : Runtime S) → IsEntered co r → Extends r r' → IsEntered co r'
  Extends-IsEntered co r r' v x = record {
    is_current = x.same_current ∙ v.is_current;
    alive = x.same_alive ∙ v.alive;
    exists = omega (arith, v.exists, x.more);
    others = λ y l d. elim (Bool-cases (ltb y r.next_id)) [
      | inl q ↦ let m = ltb→lt y r.next_id q in subst IsParked (sym (x.same y m)) (v.others y m d)
      | inr q ↦ x.new y (ground arith) l
    ];
  }

  -- What a swap to the coroutine co leaves when the control is back.
  pub record IsBack (co : ℕ) (r r' : Runtime S) : Type 0 where
    pub alive : r'.aborted ≡ false
    pub parked : (x : ℕ) → x < r'.next_id → IsParked (r'.coroutines x)
    pub same : (x : ℕ) → x < r.next_id → x ≢ co → r'.coroutines x ≡ r.coroutines x
    pub more : r.next_id ≤ r'.next_id
    pub stopped : ((r'.coroutines co).state ≡ suspended) ⊎ ((r'.coroutines co).state ≡ done)

  pub write-IsBack :
      (co : ℕ) (c : Coroutine) (r r' : Runtime S)
      → IsEntered co r
      → Extends r r'
      → IsParked c
      → (c.state ≡ suspended) ⊎ (c.state ≡ done)
      → IsBack co r (write_coroutine co c r')
  write-IsBack co c r r' v x p st =
      let w = Extends-IsEntered co r r' v x in
      record {
        alive = w.alive;
        parked = λ y l. elim (Bool-cases (y == co)) [
          | inl q ↦ rw q p
          | inr q ↦ rw q (w.others y l (λ e. ground arith))
        ];
        same = λ y l d. ground (arith, x.same y l);
        more = x.more;
        stopped = rw (let e : (co == co) ≡ true = ground arith in e) st;
      }

  pub enter-IsEntered :
      (co : ℕ) (r : Runtime S) → IsIdle r → co < r.next_id → IsEntered co (enter co r)
  unfolding enter
  enter-IsEntered co r v l = record {
    is_current = refl;
    alive = v.alive;
    exists = l;
    others = λ x m d. rw (not-same x co d) (v.parked x m);
  }

  pub enter-same :
      (co : ℕ) (r : Runtime S) (x : ℕ) → x ≢ co → (enter co r).coroutines x ≡ r.coroutines x
  unfolding enter
  enter-same co r x d = rw (not-same x co d) refl

  pub enter-blank :
      (co : ℕ) (r : Runtime S)
      → (r.coroutines co).context ≡ blank
      → (enter co r).coroutines co
        ≡ record { state = running; func = (r.coroutines co).func; context = at_entry }
  unfolding enter make
  enter-blank co r e = ground (arith, e)

  pub enter-left :
      (co position : ℕ) (r : Runtime S)
      → (r.coroutines co).context ≡ left position
      → ((enter co r).coroutines co).context ≡ left position
  unfolding enter make
  enter-left co position r e = ground (arith, e)

  -- What a resumption of the coroutine co leaves.
  pub record IsResumed (co : ℕ) (r r' : Runtime S) : Type 0 where
    pub idle : IsIdle r'
    pub stopped : ((r'.coroutines co).state ≡ suspended) ⊎ ((r'.coroutines co).state ≡ done)
    pub same : (x : ℕ) → x < r.next_id → x ≢ co → r'.coroutines x ≡ r.coroutines x
    pub more : r.next_id ≤ r'.next_id

  pub back-IsResumed :
      (co : ℕ) (r b : Runtime S)
      → ((x : ℕ) → x ≢ co → (enter co r).coroutines x ≡ r.coroutines x)
      → IsBack co (enter co r) b
      → IsResumed co r (back b)
  unfolding back enter
  back-IsResumed co r b e k =
      rw (k.alive, back)
        record {
          idle = record { no_current = refl; alive = refl; parked = k.parked };
          stopped = k.stopped;
          same = λ x l d. k.same x l d ∙ e x d;
          more = k.more;
        }

  -- The switches change nothing but the coroutines.
  pub record SameRest (r r' : Runtime S) : Type 0 where
    pub same_rest : r'.rest ≡ r.rest
    pub same_next : r'.next_id ≡ r.next_id

  pub back-SameRest : (r : Runtime S) → SameRest r (back r)
  unfolding back
  back-SameRest r = elim (Bool-cases r.aborted) [
    | inl e ↦ record { same_rest = ground (arith, e); same_next = ground (arith, e) }
    | inr e ↦ record { same_rest = ground (arith, e); same_next = ground (arith, e) }
  ]

  pub yield-SameRest : (position : ℕ) (r : Runtime S) → SameRest r (yield position r)
  unfolding yield
  yield-SameRest position r = elim (Option-cases r.current) [
    | inl e ↦ record { same_rest = ground (arith, e); same_next = ground (arith, e) }
    | inr (co, e) ↦ record { same_rest = ground (arith, e); same_next = ground (arith, e) }
  ]
