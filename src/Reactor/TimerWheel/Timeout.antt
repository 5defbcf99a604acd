-- ===== src/Reactor/TimerWheel/Timeout.antt =====
-- `next_timeout_ms` of hound/src/reactor/timer_wheel.cpp: the nearest slot that has a timer.
use native.Mathlib.Nat.{mod-eq_of_lt, add-mod_right, mul-lt-mul_of_pos_right}
use my_project.Prelude.{
  ℕ, zero, suc, ◌+◌, ◌-◌, ◌*◌, ◌%◌, ◌<◌, ◌≡◌, ◌⊎◌, inl, inr, refl, ap, sym, ◌∙◌, ◌==◌, ltb, true,
  false, Bool-cases, ltb→lt, ==_iff, none, some, List, [], ◌∷◌, length, arith,
}
use my_project.Reactor.TimerWheel.{Timer, TimerWheel, bucket_at, is_empty, walk, next_timeout_ms}
use my_project.Reactor.TimerWheel.Ids.{IsValid, total}

module _ {ℓ} {C : Type ℓ} where
  -- The slot `offset` steps ahead of the current one.
  abbrev pub ahead : TimerWheel C → ℕ → List (Timer C)
  ahead w offset = bucket_at ((w.current_slot + offset) % w.slot_count) w.buckets

  -- The nearest slot with a timer is `offset` steps ahead.
  pub record Nearest (w : TimerWheel C) (offset : ℕ) : Type 0 where
    pub within : offset < w.slot_count
    pub occupied : is_empty (ahead w offset) ≡ false
    pub free : (j : ℕ) → j < offset → is_empty (ahead w j) ≡ true

  walk-cases :
      (n offset : ℕ) (w : TimerWheel C)
      → ((j : ℕ) → j < offset → is_empty (ahead w j) ≡ true)
      → offset + n ≡ w.slot_count
      → ((k : ℕ) × (walk n offset w ≡ k * w.tick_ms) × Nearest w k)
        ⊎ ((j : ℕ) → j < w.slot_count → is_empty (ahead w j) ≡ true)
  unfolding walk
  walk-cases zero offset w free e = inr (λ j h. free j (omega arith))
  walk-cases (suc n) offset w free e = elim (Bool-cases (is_empty (ahead w offset))) [
    | inl q ↦
        rw (q, walk)
          (walk-cases n (suc offset) w
            (λ j h. elim (Bool-cases (j == offset)) [
              | inl s ↦ ap (λ k. is_empty (ahead w k)) ((==_iff j offset).0 s) ∙ q
              | inr s ↦ free j (ground arith)
            ])
            (omega arith))
    | inr q ↦
        let near : Nearest w offset = record { within = omega arith; occupied = q; free = free } in
        rw (q, walk) (inl (offset, refl, near))
  ]

  slot_ahead :
      (w : TimerWheel C) (slot : ℕ)
      → w.current_slot < w.slot_count
      → slot < w.slot_count
      → (j : ℕ) × (j < w.slot_count) × ((w.current_slot + j) % w.slot_count ≡ slot)
  slot_ahead w slot c h = elim (Bool-cases (ltb slot w.current_slot)) [
    | inl q ↦
        let l : slot < w.current_slot = ltb→lt slot w.current_slot q in
        let around : w.current_slot + (slot + w.slot_count - w.current_slot) ≡ slot + w.slot_count =
          omega arith in
        (
          slot + w.slot_count - w.current_slot,
          omega arith,
          ap (λ k. k % w.slot_count) around ∙ (add-mod_right slot w.slot_count ∙ mod-eq_of_lt h),
        )
    | inr q ↦
        let on : w.current_slot + (slot - w.current_slot) ≡ slot = ground arith in
        (slot - w.current_slot, omega arith, ap (λ k. k % w.slot_count) on ∙ mod-eq_of_lt h)
  ]

  total_zero :
      (bs : List (List (Timer C)))
      → ((slot : ℕ) → slot < length bs → is_empty (bucket_at slot bs) ≡ true)
      → total bs ≡ 0
  unfolding bucket_at is_empty
  total_zero [] h = refl
  total_zero ([] ∷ bs) h = omega (arith, total_zero bs (λ slot l. h (suc slot) (omega arith)))
  total_zero ((t ∷ b) ∷ bs) h = ground (arith, h 0 (omega arith))

  -- On a well-formed wheel: there is no timeout just where there are no timers; else the timeout
  -- is the time to the nearest slot that has a timer, less than one turn of the wheel, and so the
  -- value of a whole turn, which ends the loop, is never given.
  pub next_timeout_ms_lem :
      (w : TimerWheel C)
      → IsValid w
      → ((next_timeout_ms w ≡ none) × (total w.buckets ≡ 0))
        ⊎ ((k : ℕ) × (next_timeout_ms w ≡ some (k * w.tick_ms))
            × (k * w.tick_ms < w.slot_count * w.tick_ms)
            × Nearest w k)
  unfolding next_timeout_ms
  next_timeout_ms_lem w v = elim (Bool-cases (w.timer_count == 0)) [
    | inl q ↦ inl (rw (q, next_timeout_ms) refl, sym v.count ∙ (==_iff w.timer_count 0).0 q)
    | inr q ↦ elim (walk-cases w.slot_count 0 w (λ j h. absurd (omega arith)) (omega arith)) [
      | inl (k, e, near) ↦ inr (
        k,
        rw (q, next_timeout_ms) (ap some e),
        mul-lt-mul_of_pos_right near.within v.has_tick,
        near,
      )
      | inr all ↦
          let empty = total_zero w.buckets (λ slot l.
            let (j, b, at) = slot_ahead w slot v.current (omega (arith, v.slots)) in
            ap (λ i. is_empty (bucket_at i w.buckets)) (sym at) ∙ all j b) in
          ground (arith, v.count, empty)
    ]
  ]
