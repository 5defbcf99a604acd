-- ===== src/Reactor/TimerWheel.antt =====
-- hound/src/reactor/timer_wheel.h and timer_wheel.cpp: the wheel of timers.
-- A time is a number of microseconds (timestamp.h). A timer's stored iterator is left out: no
-- operation reads it. The callbacks are values of a type C, and `run` says what one does to the
-- wheel. The loop over a bucket keeps, as the code's iterator does, the timer it stands at; a
-- callback may add timers behind it, so the loop runs on fuel.
pub mod Ids
pub mod Cancel
pub mod Tick
pub mod Timeout
pub mod Tests
use my_project.Prelude.{
  ℕ, zero, suc, ◌+◌, ◌-◌, ◌*◌, ◌/◌, ◌%◌, ◌==◌, ltb, leb, if◌then◌else◌, Bool, true, false, Option,
  none, some, List, [], ◌∷◌, ◌++◌, get_elem?, set, replicate,
}

pub record Timer {ℓ} (C : Type ℓ) : Type ℓ where
  pub id : ℕ
  pub expiration : ℕ
  pub callback : C
  pub interval : ℕ
  pub rounds : ℕ

pub record TimerWheel {ℓ} (C : Type ℓ) : Type ℓ where
  pub tick_ms : ℕ
  pub slot_count : ℕ
  pub buckets : List (List (Timer C))
  pub current_slot : ℕ
  pub last_tick : ℕ
  pub next_timer_id : ℕ
  pub timer_count : ℕ

-- `Timestamp::diff_ms`, whose negative results both callers treat as 0.
unfoldable pub diff_ms : ℕ → ℕ → ℕ
diff_ms a b = (a - b) / 1000

module _ {ℓ} {C : Type ℓ} where
  -- `TimerWheel(tick_ms, slot_count)` at the time `now`
  abbrev pub new_wheel : ℕ → ℕ → ℕ → TimerWheel C
  new_wheel tick_ms slot_count now = record {
    tick_ms = tick_ms;
    slot_count = slot_count;
    buckets = replicate slot_count [];
    current_slot = 0;
    last_tick = now;
    next_timer_id = 1;
    timer_count = 0;
  }

  -- `buckets_[slot]`; the code's slots are all below the number of buckets.
  unfoldable pub bucket_at : ℕ → List (List (Timer C)) → List (Timer C)
  bucket_at slot bs = elim (get_elem? bs slot) [ none ↦ [] | some b ↦ b ]

  -- `insert_timer(timer)`
  unfoldable pub insert_timer : Timer C → TimerWheel C → TimerWheel C
  insert_timer t w =
      let delta_ms = diff_ms t.expiration w.last_tick in
      let rounds = delta_ms / (w.tick_ms * w.slot_count) in
      let slot = (w.current_slot + delta_ms / w.tick_ms) % w.slot_count in
      record w {
        timer_count = suc w.timer_count;
        buckets =
            set w.buckets slot (bucket_at slot w.buckets ++ record t { rounds = rounds } ∷ []);
      }

  -- `add_repeating(when, interval, callback)`, and the new timer's id
  unfoldable pub add_repeating : ℕ → ℕ → C → TimerWheel C → ℕ × TimerWheel C
  add_repeating when interval cb w = (
    w.next_timer_id,
    insert_timer
        record {
          id = w.next_timer_id;
          expiration = when;
          callback = cb;
          interval = interval;
          rounds = 0;
        }
        (record w { next_timer_id = suc w.next_timer_id }),
  )

  -- `add_timer(when, callback)`
  unfoldable pub add_timer : ℕ → C → TimerWheel C → ℕ × TimerWheel C
  add_timer when cb w = (
    w.next_timer_id,
    insert_timer
        record { id = w.next_timer_id; expiration = when; callback = cb; interval = 0; rounds = 0 }
        (record w { next_timer_id = suc w.next_timer_id }),
  )

  -- The loop of `cancel` over one bucket: the bucket without the first timer of that id.
  unfoldable pub cancel_in : ℕ → List (Timer C) → Option (List (Timer C))
  cancel_in i [] = none
  cancel_in i (t ∷ ts) =
      if t.id == i then some ts else elim (cancel_in i ts) [ none ↦ none | some r ↦ some (t ∷ r) ]

  unfoldable pub cancel_buckets : ℕ → List (List (Timer C)) → Option (List (List (Timer C)))
  cancel_buckets i [] = none
  cancel_buckets i (b ∷ bs) = elim (cancel_in i b) [
    | some r ↦ some (r ∷ bs)
    | none ↦ elim (cancel_buckets i bs) [ none ↦ none | some rs ↦ some (b ∷ rs) ]
  ]

  -- `cancel(timer_id)`
  unfoldable pub cancel : ℕ → TimerWheel C → TimerWheel C
  cancel i w = elim (cancel_buckets i w.buckets) [
    | none ↦ w
    | some bs ↦ record w { buckets = bs; timer_count = w.timer_count - 1 }
  ]

  unfoldable pub timer_at : ℕ → List (Timer C) → Option (Timer C)
  timer_at i [] = none
  timer_at i (t ∷ ts) = if t.id == i then some t else timer_at i ts

  unfoldable pub first_id : List (Timer C) → Option ℕ
  first_id [] = none
  first_id (t ∷ ts) = some t.id

  -- `++it` at the timer i
  unfoldable pub next_id : ℕ → List (Timer C) → Option ℕ
  next_id i [] = none
  next_id i (t ∷ ts) = if t.id == i then first_id ts else next_id i ts

  unfoldable pub erase : ℕ → List (Timer C) → List (Timer C)
  erase i [] = []
  erase i (t ∷ ts) = if t.id == i then ts else t ∷ erase i ts

  unfoldable pub wait_round : ℕ → List (Timer C) → List (Timer C)
  wait_round i [] = []
  wait_round i (t ∷ ts) =
      if t.id == i then record t { rounds = t.rounds - 1 } ∷ ts else t ∷ wait_round i ts

  module _ (run : C → TimerWheel C → TimerWheel C) where
    -- The branch that fires the timer t.
    unfoldable pub fire : ℕ → ℕ → Timer C → TimerWheel C → TimerWheel C
    fire now slot t w =
        let erased = record w {
          buckets = set w.buckets slot (erase t.id (bucket_at slot w.buckets));
          timer_count = w.timer_count - 1;
        } in
        let called = run t.callback erased in
        if ltb 0 t.interval
        then (add_repeating (now + t.interval) t.interval t.callback called).1
        else called

    -- One turn of the loop over the bucket, at the timer i: where the iterator goes, and the
    -- wheel; nothing where a callback has erased the timer the iterator stands at.
    unfoldable pub visit_one : ℕ → ℕ → ℕ → TimerWheel C → Option (Option ℕ × TimerWheel C)
    visit_one now slot i w =
        let bucket = bucket_at slot w.buckets in
        elim (timer_at i bucket) [
          | none ↦ none
          | some t ↦
              if ltb 0 t.rounds
              then some (
                next_id i bucket,
                record w { buckets = set w.buckets slot (wait_round i bucket) },
              )
              else some (next_id i bucket, fire now slot t w)
        ]

    unfoldable pub visit : ℕ → ℕ → ℕ → Option ℕ → TimerWheel C → Option (TimerWheel C)
    visit fuel now slot none w = some w
    visit zero now slot (some i) w = none
    visit (suc fuel) now slot (some i) w = elim (visit_one now slot i w) [
      | none ↦ none
      | some (it, w') ↦ visit fuel now slot it w'
    ]

    -- The loop of `tick`: n slots further.
    unfoldable pub advance : ℕ → ℕ → ℕ → TimerWheel C → Option (TimerWheel C)
    advance fuel now zero w = some w
    advance fuel now (suc n) w =
        let slot = (w.current_slot + 1) % w.slot_count in
        elim (visit fuel now slot (first_id (bucket_at slot w.buckets))
          (record w { current_slot = slot })) [ none ↦ none | some w' ↦ advance fuel now n w' ]

    -- `tick(now)`
    unfoldable pub tick : ℕ → ℕ → TimerWheel C → Option (TimerWheel C)
    tick fuel now w =
        let w' = record w { last_tick = now } in
        let elapsed_ms = diff_ms now w'.last_tick in
        let slots_to_advance = elapsed_ms / w'.tick_ms in
        if leb elapsed_ms 0
        then some w'
        else advance fuel now
            (if ltb w'.slot_count slots_to_advance then w'.slot_count else slots_to_advance) w'

  unfoldable pub is_empty : List (Timer C) → Bool
  is_empty [] = true
  is_empty (t ∷ ts) = false

  -- The loop of `next_timeout_ms`, with n slots left to look at.
  unfoldable pub walk : ℕ → ℕ → TimerWheel C → ℕ
  walk zero offset w = w.slot_count * w.tick_ms
  walk (suc n) offset w =
      if is_empty (bucket_at ((w.current_slot + offset) % w.slot_count) w.buckets)
      then walk n (suc offset) w
      else offset * w.tick_ms

  -- `next_timeout_ms()`, where `none` is the code's -1
  unfoldable pub next_timeout_ms : TimerWheel C → Option ℕ
  next_timeout_ms w = if w.timer_count == 0 then none else some (walk w.slot_count 0 w)
