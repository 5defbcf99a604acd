-- ===== src/Reactor/TimerWheel/Cancel.antt =====
-- `cancel` of hound/src/reactor/timer_wheel.cpp.
use native.Mathlib.Nat.{mod-lt}
use my_project.Prelude.{
  ℕ, zero, suc, ◌+◌, ◌-◌, ◌/◌, ◌%◌, ◌*◌, ◌<◌, ◌≡◌, refl, ap, ◌∙◌, subst, ◌==◌, none, some, List, [],
  ◌∷◌, ◌++◌, set, length, All, arith, Bool-cases, Option-cases, inl, inr,
}
use my_project.Reactor.TimerWheel.{
  Timer, TimerWheel, diff_ms, bucket_at, insert_timer, add_timer, cancel_in, cancel_buckets, cancel,
}
use my_project.Reactor.TimerWheel.Ids.{Below, AllBelow, IsValid, total}

module _ {ℓ} {C : Type ℓ} where
  cancel_in-Below : (n : ℕ) (b : List (Timer C)) → Below n b → cancel_in n b ≡ none
  unfolding cancel_in
  cancel_in-Below n [] h = refl
  cancel_in-Below n (t ∷ b) h = ground (arith, h.0, cancel_in-Below n b h.1)

  cancel_in-append :
      (n : ℕ) (b : List (Timer C)) (t : Timer C)
      → Below n b
      → t.id ≡ n
      → cancel_in n (b ++ t ∷ []) ≡ some b
  unfolding cancel_in
  cancel_in-append n [] t h e = ground arith
  cancel_in-append n (s ∷ b) t h e = ground (arith, h.0, cancel_in-append n b t h.1 e)

  cancel_buckets-push :
      (n slot : ℕ) (t : Timer C) (bs : List (List (Timer C)))
      → AllBelow n bs
      → t.id ≡ n
      → slot < length bs
      → cancel_buckets n (set bs slot (bucket_at slot bs ++ t ∷ [])) ≡ some bs
  unfolding cancel_buckets bucket_at
  cancel_buckets-push n slot t [] h e l = absurd (omega arith)
  cancel_buckets-push n zero t (b ∷ bs) h e l =
      rw (cancel_buckets, cancel_in-append n b t h.0 e) refl
  cancel_buckets-push n (suc slot) t (b ∷ bs) h e l =
      rw
        (
          cancel_buckets,
          cancel_in-Below n b h.0,
          cancel_buckets-push n slot t bs h.1 e (omega arith),
        )
        refl

  -- On a well-formed wheel: cancelling the timer just added, by the id that adding it gave, leaves
  -- the wheel as it was, but for the next id.
  pub cancel-add_timer :
      (when : ℕ) (cb : C) (w : TimerWheel C)
      → IsValid w
      → cancel (add_timer when cb w).0 (add_timer when cb w).1
        ≡ record w { next_timer_id = suc w.next_timer_id }
  unfolding cancel add_timer insert_timer
  cancel-add_timer when cb w v =
      let delta_ms = diff_ms when w.last_tick in
      let slot = (w.current_slot + delta_ms / w.tick_ms) % w.slot_count in
      rw
        (
          cancel,
          cancel_buckets-push w.next_timer_id slot
              record {
                id = w.next_timer_id;
                expiration = when;
                callback = cb;
                interval = 0;
                rounds = delta_ms / (w.tick_ms * w.slot_count);
              }
              w.buckets v.ids refl
              (omega (arith, v.slots, mod-lt (w.current_slot + delta_ms / w.tick_ms) v.has_slots)),
        )
        (ap (λ c. record w { next_timer_id = suc w.next_timer_id; timer_count = c })
          (let e : suc w.timer_count - 1 ≡ w.timer_count = omega arith in e))

  cancel_in-length :
      (i : ℕ) (b r : List (Timer C)) → cancel_in i b ≡ some r → length b ≡ suc (length r)
  unfolding cancel_in
  cancel_in-length i [] r h = ground arith
  cancel_in-length i (t ∷ b) r h = elim (Bool-cases (t.id == i)) [
    | inl e ↦ ground arith
    | inr e ↦ elim (Option-cases (cancel_in i b)) [
      | inl o ↦ ground arith
      | inr (r', o) ↦ ground (arith, cancel_in-length i b r' o)
    ]
  ]

  cancel_in-All :
      (P : Timer C → Type 0) (i : ℕ) (b r : List (Timer C))
      → cancel_in i b ≡ some r
      → All P b
      → All P r
  unfolding cancel_in
  cancel_in-All P i [] r h a = ground arith
  cancel_in-All P i (t ∷ b) r h a = elim (Bool-cases (t.id == i)) [
    | inl e ↦ subst (All P) (let q : b ≡ r = ground arith in q) a.1
    | inr e ↦ elim (Option-cases (cancel_in i b)) [
      | inl o ↦ ground arith
      | inr (r', o) ↦
          subst (All P) (let q : t ∷ r' ≡ r = ground arith in q) (a.0, cancel_in-All P i b r' o a.1)
    ]
  ]

  abbrev Cancelled : ℕ → List (List (Timer C)) → List (List (Timer C)) → Type 0
  Cancelled n bs rs = (length rs ≡ length bs) × (total bs ≡ suc (total rs)) × AllBelow n rs

  cancel_buckets-Cancelled :
      (n i : ℕ) (bs rs : List (List (Timer C)))
      → cancel_buckets i bs ≡ some rs
      → AllBelow n bs
      → Cancelled n bs rs
  unfolding cancel_buckets
  cancel_buckets-Cancelled n i [] rs h a = ground arith
  cancel_buckets-Cancelled n i (b ∷ bs) rs h a = elim (Option-cases (cancel_in i b)) [
    | inr (r, o) ↦ subst (Cancelled n (b ∷ bs)) (let q : r ∷ bs ≡ rs = ground arith in q) (
      refl,
      omega (arith, cancel_in-length i b r o),
      (cancel_in-All (λ t. t.id < n) i b r o a.0, a.1),
    )
    | inl o ↦ elim (Option-cases (cancel_buckets i bs)) [
      | inl p ↦ ground arith
      | inr (rs', p) ↦
          let c = cancel_buckets-Cancelled n i bs rs' p a.1 in
          subst (Cancelled n (b ∷ bs)) (let q : b ∷ rs' ≡ rs = ground arith in q)
            (ap suc c.0, omega (arith, c.1), (a.0, c.2))
    ]
  ]

  -- Cancelling any id on a well-formed wheel gives a well-formed wheel: the counter still is the
  -- number of the timers.
  cancel-IsValid : (i : ℕ) (w : TimerWheel C) → IsValid w → IsValid (cancel i w)
  unfolding cancel
  cancel-IsValid i w v = elim (Option-cases (cancel_buckets i w.buckets)) [
    | inl o ↦ subst IsValid (let e : w ≡ cancel i w = rw (cancel, o) refl in e) v
    | inr (bs, o) ↦
        let c = cancel_buckets-Cancelled w.next_timer_id i w.buckets bs o v.ids in
        let e : record w { buckets = bs; timer_count = w.timer_count - 1 } ≡ cancel i w =
          rw (cancel, o) refl in
        subst IsValid e record {
          has_tick = v.has_tick;
          has_slots = v.has_slots;
          slots = c.0 ∙ v.slots;
          current = v.current;
          count = omega (arith, v.count, c.1);
          ids = c.2;
        }
  ]
