-- ===== src/Coro/Coroutine/Resume.antt =====
-- What a resumption leaves: hound/src/coro/coroutine.cpp.
use my_project.Prelude.{
  ℕ, ◌<◌, ◌≡◌, ◌≢◌, inl, inr, refl, ap, ◌∙◌, Option, some, Option-cases, arith,
}
use my_project.Coro.Coroutine.{
  done, at_entry, left, Runtime, yield, finish, run_from, entry_point, swap, enter, back, resume,
}
use my_project.Coro.Coroutine.Parked.{
  yielded, ended, StartsAt, unentered, parked_at, IsParked→StartsAt, IsIdle, Extends, IsEntered,
  Extends-IsEntered, IsBack, write-IsBack, enter-IsEntered, enter-same, enter-blank, enter-left,
  IsResumed, back-IsResumed, SameRest, back-SameRest, yield-SameRest,
}

module _ {S : Type 0} where
  module _ (execute : ℕ → Runtime S → Option ℕ × Runtime S)
      (functions : (position : ℕ) (r : Runtime S) → Extends r (execute position r).1) where
    run_from-IsBack :
        (co position : ℕ) (r : Runtime S)
        → IsEntered co r
        → IsBack co r (run_from execute co position r)
    unfolding run_from finish yield
    run_from-IsBack co position r v =
        let x = functions position r in
        let w = Extends-IsEntered co r (execute position r).1 v x in
        elim (Option-cases (execute position r).0) [
          | inl e ↦ rw (e, run_from) (write-IsBack co _ r _ v x (ended _ refl refl refl) (inr refl))
          | inr (p, e) ↦
              rw (e, run_from)
                (rw (w.is_current, yield)
                  (write-IsBack co _ r _ v x (yielded _ p refl refl) (inl refl)))
        ]

    -- What `swap` runs where the context was just made, or was left.
    swap-entry :
        (co func : ℕ) (r : Runtime S)
        → IsEntered co r
        → (r.coroutines co).context ≡ at_entry
        → (r.coroutines co).func ≡ some func
        → swap execute co r ≡ run_from execute co func r
    unfolding swap entry_point
    swap-entry co func r v e f = ground (arith, v.is_current, e, f)

    swap-left :
        (co position : ℕ) (r : Runtime S)
        → (r.coroutines co).context ≡ left position
        → swap execute co r ≡ run_from execute co position r
    unfolding swap
    swap-left co position r e = rw (e, swap) refl

    pub swap-enter :
        (co position : ℕ) (r : Runtime S)
        → IsIdle r
        → co < r.next_id
        → StartsAt position (r.coroutines co)
        → swap execute co (enter co r) ≡ run_from execute co position (enter co r)
    swap-enter co position r v l (unentered _ a b e) =
        swap-entry co position (enter co r) (enter-IsEntered co r v l)
          (ap (λ x. x.context) (enter-blank co r e)) (ap (λ x. x.func) (enter-blank co r e) ∙ b)
    swap-enter co position r v l (parked_at _ a b) =
        swap-left co position (enter co r) (enter-left co position r b)

    run_from-SameRest :
        (co position : ℕ) (r : Runtime S)
        → SameRest (execute position r).1 (run_from execute co position r)
    unfolding run_from finish
    run_from-SameRest co position r = elim (Option-cases (execute position r).0) [
      | inl e ↦ record { same_rest = ground (arith, e); same_next = ground (arith, e) }
      | inr (p, e) ↦ rw (e, run_from) (yield-SameRest p (execute position r).1)
    ]

    -- A resumption executes the function once, from where it was left.
    pub resume-executes :
        (co : ℕ) (r : Runtime S)
        → IsIdle r
        → co < r.next_id
        → (r.coroutines co).state ≢ done
        → (position : ℕ) × ((resume execute co r).rest ≡ (execute position (enter co r)).1.rest)
          × ((resume execute co r).next_id ≡ (execute position (enter co r)).1.next_id)
    unfolding resume
    resume-executes co r v l d =
        let (position, st) = IsParked→StartsAt (r.coroutines co) (v.parked co l) d in
        let b = run_from execute co position (enter co r) in
        let e = ap back (swap-enter co position r v l st) in
        let k = run_from-SameRest co position (enter co r) in
        let m = back-SameRest b in
        (
          position,
          ap (λ x. x.rest) e ∙ m.same_rest ∙ k.same_rest,
          ap (λ x. x.next_id) e ∙ m.same_next ∙ k.same_next,
        )

    swap-IsBack :
        (co : ℕ) (r : Runtime S)
        → IsIdle r
        → co < r.next_id
        → (r.coroutines co).state ≢ done
        → IsBack co (enter co r) (swap execute co (enter co r))
    swap-IsBack co r v l d =
        let (position, st) = IsParked→StartsAt (r.coroutines co) (v.parked co l) d in
        rw (swap-enter co position r v l st)
          (run_from-IsBack co position (enter co r) (enter-IsEntered co r v l))

    -- A coroutine of an idle thread that has not ended can be resumed: the program does not end,
    -- the thread is idle again, the coroutine is suspended or has ended, and no other coroutine of
    -- the thread was touched.
    pub resume-IsResumed :
        (co : ℕ) (r : Runtime S)
        → IsIdle r
        → co < r.next_id
        → (r.coroutines co).state ≢ done
        → IsResumed co r (resume execute co r)
    unfolding resume
    resume-IsResumed co r v l d = back-IsResumed co r _ (enter-same co r) (swap-IsBack co r v l d)
