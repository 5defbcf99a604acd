-- ===== src/Reactor/TimerWheel/Tick.antt =====
-- `tick` of hound/src/reactor/timer_wheel.cpp: it sets last_tick_ before it measures the time
-- passed since last_tick_.
use my_project.Prelude.{ℕ, ◌-◌, ◌/◌, ◌≡◌, refl, ap, some, arith}
use my_project.Reactor.TimerWheel.{TimerWheel, diff_ms, tick}

diff_ms_self : (a : ℕ) → diff_ms a a ≡ 0
unfolding diff_ms
diff_ms_self a = ap (λ k. k / 1000) (let e : a - a ≡ 0 = omega arith in e)

module _ {ℓ} {C : Type ℓ} (run : C → TimerWheel C → TimerWheel C) where
  -- Whatever the callbacks do, whatever timers are due and whatever the fuel: a tick stores the
  -- time and does nothing else. No timer fires, the current slot stays, and every timer stays.
  pub tick_lem :
      (fuel now : ℕ) (w : TimerWheel C) → tick run fuel now w ≡ some (record w { last_tick = now })
  unfolding tick
  tick_lem fuel now w = rw (diff_ms_self now) refl
