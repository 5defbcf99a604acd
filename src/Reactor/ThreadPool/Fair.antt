-- ===== src/Reactor/ThreadPool/Fair.antt =====
-- How `get_next_loop` of hound/src/reactor/thread_pool.cpp hands out the loops.
use my_project.Prelude.{
  ℕ, zero, suc, ◌+◌, ◌-◌, ◌*◌, ◌/◌, ◌%◌, ◌^◌, ◌≤◌, ◌<◌, ◌==◌, leb, ◌≡◌, ◌≢◌, inl, inr, refl, ap,
  ◌∙◌, if◌then◌else◌, Bool-cases, Option, none, List, [], ◌∷◌, length, get_elem?, arith,
}
use native.Mathlib.Nat.{mod-add-div, mod-lt, mul-suc, mod-eq_of_lt, mul-add-mod_self_left}
use my_project.Reactor.EventLoop.{EventLoop}
use my_project.Reactor.ThreadPool.{EventLoopThreadPool, get_next_loop}

-- The pool after so many calls of `get_next_loop`, from any threads: the index is atomic.
abbrev pub after : ℕ → EventLoopThreadPool → EventLoopThreadPool
after zero p = p
after (suc j) p = (get_next_loop (after j p)).1

after-loops : (j : ℕ) (p : EventLoopThreadPool) → (after j p).loops ≡ p.loops
unfolding get_next_loop
after-loops zero p = refl
after-loops (suc j) p = after-loops j p

after-next_index :
    (j : ℕ) (p : EventLoopThreadPool)
    → p.next_index + j < 2 ^ 64
    → (after j p).next_index ≡ p.next_index + j
unfolding get_next_loop
after-next_index zero p h = omega arith
after-next_index (suc j) p h = omega (arith, after-next_index j p (omega arith))

-- Where the index does not wrap, the loops are handed out in their order, over and over: the call
-- after j others gives the loop at the place (index + j) modulo the number of loops.
get_next_loop-nth :
    (j : ℕ) (p : EventLoopThreadPool)
    → p.loops ≢ []
    → p.next_index + j < 2 ^ 64
    → (get_next_loop (after j p)).0 ≡ get_elem? p.loops ((p.next_index + j) % length p.loops)
unfolding get_next_loop
get_next_loop-nth j p d h =
    ap (λ k. hand_out (after j p).loops k) (after-next_index j p h)
    ∙ ap (λ ls. hand_out ls (p.next_index + j)) (after-loops j p)
    ∙ hand_out-nonempty p.loops (p.next_index + j) d
  where
    hand_out : List EventLoop → ℕ → Option EventLoop
    hand_out ls k = if length ls == 0 then none else get_elem? ls (k % length ls)

    hand_out-nonempty :
        (ls : List EventLoop) (k : ℕ) → ls ≢ [] → hand_out ls k ≡ get_elem? ls (k % length ls)
    hand_out-nonempty [] k e = absurd (e refl)
    hand_out-nonempty (l ∷ ls) k e = ground arith

remainder_of : (n q i y : ℕ) → i < n → y ≡ n * q + i → y % n ≡ i
remainder_of n q i y h e = ap (λ z. z % n) e ∙ mul-add-mod_self_left n q i ∙ mod-eq_of_lt h

-- Every place comes up in one of n turns.
turn_of : (n i x : ℕ) → i < n → (j : ℕ) × (j < n) × ((x + j) % n ≡ i)
turn_of n i x h = elim (Bool-cases (leb (x % n) i)) [
  | inl e ↦ (
    i - x % n,
    ground arith,
    remainder_of n (x / n) i (x + (i - x % n)) h (ground (arith, mod-add-div x n)),
  )
  | inr e ↦ (
    n + i - x % n,
    ground (arith, mod-lt x {m = n} (omega arith)),
    remainder_of n (suc (x / n)) i (x + (n + i - x % n)) h
        (ground (arith, mod-add-div x n, mul-suc n (x / n), mod-lt x {m = n} (omega arith))),
  )
]

-- No loop is passed over: where the index does not wrap, every loop is handed out by one of the
-- next calls, as many as there are loops.
pub get_next_loop-fair :
    (i : ℕ) (p : EventLoopThreadPool)
    → i < length p.loops
    → p.next_index + length p.loops ≤ 2 ^ 64
    → (j : ℕ) × (j < length p.loops) × ((get_next_loop (after j p)).0 ≡ get_elem? p.loops i)
get_next_loop-fair i p h b =
    let (j, l, e) = turn_of (length p.loops) i p.next_index h in
    (
      j,
      l,
      get_next_loop-nth j p (λ z. absurd (ground (arith, z))) (omega arith)
          ∙ ap (get_elem? p.loops) e,
    )
