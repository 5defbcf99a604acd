-- ===== src/Coro/Coroutine/Straight.antt =====
-- A function that yields does the same as if it did not: hound/src/coro/coroutine.cpp.
use my_project.Prelude.{
  ℕ, zero, suc, ◌<◌, ◌≡◌, ◌≢◌, refl, ap, sym, ◌∙◌, subst, Option, none, some, false, arith,
}
use my_project.Coro.Coroutine.{
  done, Coroutine, Runtime, yield, finish, run_from, enter, back, resume,
}
use my_project.Coro.Coroutine.Parked.{IsIdle, IsResumed, Extends, StartsAt, parked_at, unentered}
use my_project.Coro.Coroutine.Resume.{swap-enter, resume-IsResumed}

module _ {S : Type 0} (step : ℕ → S → Option ℕ × S) where
  -- The functions touch nothing of the coroutines.
  abbrev pub execute : ℕ → Runtime S → Option ℕ × Runtime S
  execute position r = let (stop, rest) = step position r.rest in (stop, record r { rest = rest })

  -- From the position to the return of the function, past k calls of `yield` that do nothing.
  pub data Runs : ℕ → ℕ → S → S → Type 0 where
    returns : {position : ℕ} {s s' : S} → step position s ≡ (none, s') → Runs 0 position s s'
    passes :
        {k position p : ℕ} {s s' s'' : S}
        → step position s ≡ (some p, s')
        → Runs k p s' s''
        → Runs (suc k) position s s''

  unfoldable pub resume_times : ℕ → ℕ → Runtime S → Runtime S
  resume_times zero co r = r
  resume_times (suc n) co r = resume_times n co (resume execute co r)

  execute-Extends : (position : ℕ) (r : Runtime S) → Extends r (execute position r).1
  execute-Extends position r = record {
    same_current = refl;
    same_alive = refl;
    more = omega arith;
    same = λ co l. refl;
    new = λ co l m. absurd (omega arith);
  }

  StartsAt-not-done : (position : ℕ) (c : Coroutine) → StartsAt position c → c.state ≢ done
  StartsAt-not-done position _ (unentered c a b e) d = ground (arith, a, d)
  StartsAt-not-done position _ (parked_at c a b) d = ground (arith, a, d)

  module _ (co position : ℕ) (r : Runtime S) (v : IsIdle r) (l : co < r.next_id)
      (st : StartsAt position (r.coroutines co)) where
    resumed : IsResumed co r (resume execute co r)
    resumed =
        resume-IsResumed execute execute-Extends co r v l
          (StartsAt-not-done position (r.coroutines co) st)

    resume_lem :
        (r' : Runtime S)
        → run_from execute co position (enter co r) ≡ r'
        → r'.aborted ≡ false
        → resume execute co r ≡ record r' { current = none }
    unfolding resume back
    resume_lem r' e a =
        ap back (swap-enter execute execute-Extends co position r v l st ∙ e) ∙ ground (arith, a)

    resume-returns :
        (s' : S)
        → step position r.rest ≡ (none, s')
        → ((resume execute co r).rest ≡ s') × (((resume execute co r).coroutines co).state ≡ done)
    unfolding run_from finish enter
    resume-returns s' e =
        let q =
          resume_lem (finish co (record (enter co r) { rest = s' })) (ground (arith, e)) v.alive in
        (ap (λ x. x.rest) q, ap (λ x. (x.coroutines co).state) q ∙ ground arith)

    resume-yields :
        (p : ℕ) (s' : S)
        → step position r.rest ≡ (some p, s')
        → ((resume execute co r).rest ≡ s') × StartsAt p ((resume execute co r).coroutines co)
    unfolding run_from yield enter
    resume-yields p s' e =
        let q =
          resume_lem (yield p (record (enter co r) { rest = s' })) (ground (arith, e)) v.alive in
        (
          ap (λ x. x.rest) q,
          parked_at _ (ap (λ x. (x.coroutines co).state) q ∙ ground arith)
              (ap (λ x. (x.coroutines co).context) q ∙ ground arith),
        )

  -- A coroutine whose function yields k times until it returns and touches no coroutine itself:
  -- k + 1 resumptions leave what running the function straight through leaves, as if its yields
  -- did nothing; then the coroutine is done, and the thread idle.
  pub resume_times-straight :
      (k co position : ℕ) (r : Runtime S) (s' : S)
      → Runs k position r.rest s'
      → IsIdle r
      → co < r.next_id
      → StartsAt position (r.coroutines co)
      → ((resume_times (suc k) co r).rest ≡ s')
        × (((resume_times (suc k) co r).coroutines co).state ≡ done)
        × IsIdle (resume_times (suc k) co r)
  unfolding resume_times
  resume_times-straight zero co position r s' (returns e) v l st =
      let d = resume-returns co position r v l st s' e in
      (d.0, d.1, (resumed co position r v l st).idle)
  resume_times-straight (suc k) co position r s'' (passes {p = p} {s' = s'} e run) v l st =
      let d = resume-yields co position r v l st p s' e in
      let h = resumed co position r v l st in
      resume_times-straight k co p (resume execute co r) s''
        (subst (λ s. Runs k p s s'') (sym d.0) run) h.idle (omega (arith, h.more)) d.1
