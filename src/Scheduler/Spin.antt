-- ===== src/Scheduler/Spin.antt =====
-- When the Windows scheduler returns.
use robot_controller.Prelude.{
  ◌≡◌, ◌⊎◌, inl, inr, Bool-cases, ℤ, ◌≤ℤ◌, ◌-ℤ◌, true, false, arith, ltb_ℤ, List, [], ◌∷◌,
}
use robot_controller.Double.{Double, IsOrdered}
use robot_controller.Scheduler.Portable.{milliseconds, scheduled_cycle, advance_schedule}
use robot_controller.Scheduler.Windows.{
  WindowsControlScheduler, Calls, Wait, spin, wait_for_next_cycle,
}

-- The clock has reached a time at one of the readings.
abbrev pub Reached : ℤ → List ℤ → Type 0
Reached time [] = ⊥
Reached time (now ∷ readings) = (time ≤ℤ now) ⊎ Reached time readings

ltb_ℤ-false : (a b : ℤ) → ltb_ℤ a b ≡ false → b ≤ℤ a
ltb_ℤ-false a b h = ground arith

spin-Reached : (time : ℤ) (readings : List ℤ) → spin time readings ≡ true → Reached time readings
unfolding spin
spin-Reached time [] e = absurd (cc)
spin-Reached time (now ∷ readings) e = elim (Bool-cases (ltb_ℤ now time)) [
  | inl early ↦ inr (spin-Reached time readings (rw (early, spin) at e))
  | inr reached ↦ inl (ltb_ℤ-false now time reached)
]

module _ {W : Type 0} ⦃d : Double W⦄ (laws : IsOrdered W) where
  -- A wait that returns gives the scheduled time, which the clock has reached, moves the schedule on
  -- by one period, keeps the timer, and does not lower the greatest lateness recorded.
  pub returned-Reached :
      (c : Calls) (s s' : WindowsControlScheduler W) (start : ℤ)
      → wait_for_next_cycle c s ≡ Wait.returned s' start
      → (start ≡ scheduled_cycle s.base)
        × (s'.base ≡ advance_schedule s.base)
        × (s'.timer ≡ s.timer)
        × (d.lt s'.max_wake_lateness s.max_wake_lateness ≡ false)
        × Reached (scheduled_cycle s.base) (c.now ∷ c.readings)
  unfolding wait_for_next_cycle
  returned-Reached c s s' start e =
      let due = scheduled_cycle s.base in
      let lateness : W = milliseconds (c.wake_time -ℤ due) in
      ground (
        arith,
        spin-Reached due c.readings,
        ltb_ℤ-false c.now due,
        laws.lt_irrefl s.max_wake_lateness,
        laws.lt_asymm s.max_wake_lateness lateness,
      )
