-- ===== src/Reactor/TimerWheel/Tests.antt =====
-- The theorems on the timer wheel at a wheel of four slots of 10 ms with one timer in it.
use my_project.Prelude.{ℕ, ◌*◌, ◌<◌, ◌≡◌, ◌⊎◌, refl, none, some, [], ◌∷◌, arith}
use my_project.Reactor.TimerWheel.{TimerWheel, new_wheel, add_timer, cancel, tick, next_timeout_ms}
use my_project.Reactor.TimerWheel.Ids.{IsValid, total}
use my_project.Reactor.TimerWheel.Cancel.{cancel-add_timer}
use my_project.Reactor.TimerWheel.Timeout.{Nearest, next_timeout_ms_lem}
use my_project.Reactor.TimerWheel.Tick.{tick_lem}

-- Callbacks that do nothing to the wheel, by number.
abbrev no_change : ℕ → TimerWheel ℕ → TimerWheel ℕ
no_change c w = w

abbrev wheel : TimerWheel ℕ
wheel = record (new_wheel 10 4 5000) {
  buckets =
      []
      ∷ (record { id = 1; expiration = 15000; callback = 7; interval = 0; rounds = 0 } ∷ [])
      ∷ []
      ∷ []
      ∷ [];
  next_timer_id = 2;
  timer_count = 1;
}

wheel-IsValid : IsValid wheel
wheel-IsValid = record {
  has_tick = omega arith;
  has_slots = omega arith;
  slots = refl;
  current = omega arith;
  count = refl;
  ids = (tt, ((omega arith, tt), (tt, (tt, tt))));
}

cancel_added_example :
    cancel (add_timer 25000 8 wheel).0 (add_timer 25000 8 wheel).1
    ≡ record wheel { next_timer_id = 3 }
cancel_added_example = cancel-add_timer 25000 8 wheel wheel-IsValid

-- A minute later, at a time at which the timer is long due.
tick_example : tick no_change 100 60000000 wheel ≡ some (record wheel { last_tick = 60000000 })
tick_example = tick_lem no_change 100 60000000 wheel

timeout_example :
    ((next_timeout_ms wheel ≡ none) × (total wheel.buckets ≡ 0))
    ⊎ ((k : ℕ) × (next_timeout_ms wheel ≡ some (k * wheel.tick_ms))
        × (k * wheel.tick_ms < wheel.slot_count * wheel.tick_ms)
        × Nearest wheel k)
timeout_example = next_timeout_ms_lem wheel wheel-IsValid
