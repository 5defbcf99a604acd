-- ===== src/Reactor/TimerWheel/Ids.antt =====
-- The well-formed wheels of hound/src/reactor/timer_wheel.cpp: the counter of the timers is their
-- number, and the ids given are below the next one.
use native.Mathlib.Nat.{mod-lt}
use my_project.Prelude.{
  ℕ, zero, suc, ◌+◌, ◌/◌, ◌%◌, ◌*◌, ◌<◌, ◌≡◌, refl, ap, sym, ◌∙◌, List, [], ◌∷◌, ◌++◌, set, length,
  length-append, All, All-append, arith,
}
use my_project.Reactor.TimerWheel.{
  Timer, TimerWheel, diff_ms, bucket_at, insert_timer, add_timer, add_repeating,
}

module _ {ℓ} {C : Type ℓ} where
  abbrev pub total : List (List (Timer C)) → ℕ
  total [] = 0
  total (b ∷ bs) = length b + total bs

  abbrev pub Below : ℕ → List (Timer C) → Type 0
  Below n = All (λ t. t.id < n)

  abbrev pub AllBelow : ℕ → List (List (Timer C)) → Type 0
  AllBelow n = All (Below n)

  pub record IsValid (w : TimerWheel C) : Type 0 where
    pub has_tick : 0 < w.tick_ms
    pub has_slots : 0 < w.slot_count
    pub slots : length w.buckets ≡ w.slot_count
    pub current : w.current_slot < w.slot_count
    pub count : w.timer_count ≡ total w.buckets
    pub ids : AllBelow w.next_timer_id w.buckets

  Below-suc : (n : ℕ) (b : List (Timer C)) → Below n b → Below (suc n) b
  Below-suc n [] h = h
  Below-suc n (t ∷ b) h = (omega (arith, h.0), Below-suc n b h.1)

  pub AllBelow-suc : (n : ℕ) (bs : List (List (Timer C))) → AllBelow n bs → AllBelow (suc n) bs
  AllBelow-suc n [] h = h
  AllBelow-suc n (b ∷ bs) h = (Below-suc n b h.0, AllBelow-suc n bs h.1)

  length-push :
      (slot : ℕ) (t : Timer C) (bs : List (List (Timer C)))
      → length (set bs slot (bucket_at slot bs ++ t ∷ [])) ≡ length bs
  unfolding bucket_at
  length-push slot t [] = ground arith
  length-push zero t (b ∷ bs) = refl
  length-push (suc slot) t (b ∷ bs) = ap suc (length-push slot t bs)

  total-push :
      (slot : ℕ) (t : Timer C) (bs : List (List (Timer C)))
      → slot < length bs
      → total (set bs slot (bucket_at slot bs ++ t ∷ [])) ≡ suc (total bs)
  unfolding bucket_at
  total-push slot t [] h = absurd (omega arith)
  total-push zero t (b ∷ bs) h = omega (arith, length-append b (t ∷ []))
  total-push (suc slot) t (b ∷ bs) h = omega (arith, total-push slot t bs (omega arith))

  AllBelow-push :
      (n slot : ℕ) (t : Timer C) (bs : List (List (Timer C)))
      → t.id < n
      → AllBelow n bs
      → AllBelow n (set bs slot (bucket_at slot bs ++ t ∷ []))
  unfolding bucket_at
  AllBelow-push n slot t [] i h = h
  AllBelow-push n zero t (b ∷ bs) i h = (All-append (λ s. s.id < n) b (t ∷ []) h.0 (i, tt), h.1)
  AllBelow-push n (suc slot) t (b ∷ bs) i h = (h.0, AllBelow-push n slot t bs i h.1)

  insert_timer-IsValid :
      (t : Timer C) (w : TimerWheel C)
      → t.id < w.next_timer_id
      → IsValid w
      → IsValid (insert_timer t w)
  unfolding insert_timer
  insert_timer-IsValid t w i v =
      let delta_ms = diff_ms t.expiration w.last_tick in
      let slot = (w.current_slot + delta_ms / w.tick_ms) % w.slot_count in
      let t' = record t { rounds = delta_ms / (w.tick_ms * w.slot_count) } in
      record {
        has_tick = v.has_tick;
        has_slots = v.has_slots;
        slots = length-push slot t' w.buckets ∙ v.slots;
        current = v.current;
        count =
            ap suc v.count
            ∙ sym (
                total-push slot t' w.buckets (
                  omega (
                    arith,
                    v.slots,
                    v.has_slots,
                    mod-lt (w.current_slot + delta_ms / w.tick_ms) v.has_slots,
                  )));
        ids = AllBelow-push w.next_timer_id slot t' w.buckets i v.ids;
      }

  raise :
      (w : TimerWheel C) → IsValid w → IsValid (record w { next_timer_id = suc w.next_timer_id })
  raise w v = record {
    has_tick = v.has_tick;
    has_slots = v.has_slots;
    slots = v.slots;
    current = v.current;
    count = v.count;
    ids = AllBelow-suc w.next_timer_id w.buckets v.ids;
  }

  -- Adding a timer to a well-formed wheel gives a well-formed wheel.
  add_timer-IsValid :
      (when : ℕ) (cb : C) (w : TimerWheel C) → IsValid w → IsValid (add_timer when cb w).1
  unfolding add_timer
  add_timer-IsValid when cb w v = insert_timer-IsValid _ _ (omega arith) (raise w v)

  pub add_repeating-IsValid :
      (when interval : ℕ) (cb : C) (w : TimerWheel C)
      → IsValid w
      → IsValid (add_repeating when interval cb w).1
  unfolding add_repeating
  add_repeating-IsValid when interval cb w v = insert_timer-IsValid _ _ (omega arith) (raise w v)
