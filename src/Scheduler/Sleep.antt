-- ===== src/Scheduler/Sleep.antt =====
-- How the Linux scheduler waits for a cycle.
use robot_controller.Prelude.{
  zero, refl, ℕ, suc, ◌+◌, ◌*◌, ◌<◌, ◌≡◌, ◌≢◌, ◌↔◌, ap, ◌∙◌, inl, inr, Bool-cases, ℤ, pos, negsuc,
  pos_part, neg_part, ◌+ℤ◌, ◌-ℤ◌, ◌≤ℤ◌, ◌<ℤ◌, ◌*ℤ◌, ◌%◌, true, false, int_laws, arith, leb_ℤ, quot,
  rem, List, [], ◌∷◌,
}
use robot_controller.Scheduler.Portable.{new_scheduler, advance_schedule, scheduled_cycle}
use robot_controller.Scheduler.Linux
use robot_controller.Scheduler.Linux.{
  TimeSpec, LinuxControlScheduler, new_linux_scheduler, second, add_duration, Sleep, sleep,
  wake_target,
}

-- Nanoseconds from 0 to 999 999 999, as the system wants them.
abbrev pub IsNormal : TimeSpec → Type 0
IsNormal t = (pos 0 ≤ℤ t.nanoseconds) × (t.nanoseconds <ℤ pos second)

-- The time since the clock's epoch.
abbrev pub total : TimeSpec → ℤ
total t = pos second *ℤ t.seconds +ℤ t.nanoseconds

*ℤ_parts :
    (k : ℕ) (a : ℤ)
    → (pos_part (pos k *ℤ a) + k * neg_part a ≡ neg_part (pos k *ℤ a) + k * pos_part a)
unfolding ◌*ℤ◌
*ℤ_parts k a = ground arith

leb_ℤ-false : (a b : ℤ) → leb_ℤ a b ≡ false → b <ℤ a
leb_ℤ-false a b h = ground arith

leb_ℤ-true : (a b : ℤ) → leb_ℤ a b ≡ true → a ≤ℤ b
leb_ℤ-true a b h = ground arith

-- A time plus a duration that is not negative is a normal time, later by just that duration.
add_duration_nonneg :
    (t : TimeSpec) (n : ℕ)
    → IsNormal t
    → IsNormal (add_duration t (pos n)) × (total (add_duration t (pos n)) ≡ total t +ℤ pos n)
unfolding add_duration quot rem
add_duration_nonneg t n h =
    elim (Bool-cases (leb_ℤ (pos second) (t.nanoseconds +ℤ pos (n % second)))) [
      | inl carry ↦ rw carry (
        omega (int_laws, leb_ℤ-true (pos second) (t.nanoseconds +ℤ pos (n % second)) carry),
        omega (int_laws, *ℤ_parts),
      )
      | inr none_carried ↦ rw none_carried (
        omega (int_laws, leb_ℤ-false (pos second) (t.nanoseconds +ℤ pos (n % second)) none_carried),
        omega (int_laws, *ℤ_parts),
      )
    ]

rem_small : (n : ℕ) → suc n < second → rem (negsuc n) second ≡ negsuc n
unfolding rem
rem_small n h = ground arith

-- With a duration that is negative, by less than a second, the sum is a normal time exactly where the
-- nanoseconds of the time cover the duration; otherwise its nanoseconds are negative.
add_duration_negative :
    (t : TimeSpec) (n : ℕ)
    → IsNormal t
    → suc n < second
    → let sum = add_duration t (negsuc n) in
      (sum.nanoseconds ≡ t.nanoseconds -ℤ pos (suc n))
      × (IsNormal sum ↔ (pos (suc n) ≤ℤ t.nanoseconds))
unfolding add_duration
add_duration_negative t n h small =
    rw (rem_small n small) (elim (Bool-cases (leb_ℤ (pos second) (t.nanoseconds +ℤ negsuc n))) [
      | inl carry ↦
          absurd (omega (int_laws, leb_ℤ-true (pos second) (t.nanoseconds +ℤ negsuc n) carry))
      | inr none_carried ↦
          rw none_carried (omega int_laws, ((λ k. omega int_laws), λ k. omega int_laws))
    ])

sleep_error :
    (eintr error : ℕ) → error ≢ 0 → error ≢ eintr → sleep eintr (error ∷ []) ≡ Sleep.failed
unfolding sleep
sleep_error eintr error e0 e1 = ground arith

-- The first cycle is scheduled for the clock's first reading, and the elapsed time is counted from its
-- second reading, after some nanoseconds. If CLOCK_MONOTONIC then stands fewer nanoseconds than that
-- into a second, the first wait asks for a time with negative nanoseconds; where `clock_nanosleep`
-- refuses this (with a result that is neither 0 nor EINTR), the wait throws.
pub first_wait_throws :
    (eintr error period passed : ℕ) (base_now : ℤ) (linux_now : TimeSpec)
    (clock_nanosleep : TimeSpec → List ℕ)
    → error ≢ 0
    → error ≢ eintr
    → ((target : TimeSpec) → ¬ IsNormal target → clock_nanosleep target ≡ error ∷ [])
    → IsNormal linux_now
    → suc passed < second
    → linux_now.nanoseconds <ℤ pos (suc passed)
    → let s = new_linux_scheduler period base_now (base_now +ℤ pos (suc passed)) linux_now in
      Linux.wait_for_next_cycle eintr clock_nanosleep s ≡ Linux.Wait.thrown s
unfolding Linux.wait_for_next_cycle wake_target new_linux_scheduler new_scheduler sleep
first_wait_throws eintr error period passed base_now linux_now clock_nanosleep e0 e1 refuses normal
      small early =
    let elapsed : base_now -ℤ (base_now +ℤ pos (suc passed)) ≡ negsuc passed = omega int_laws in
    let (_, valid) = add_duration_negative linux_now passed normal small in
    let refused =
      refuses (add_duration linux_now (negsuc passed)) (λ k. absurd (omega (arith, valid.0 k))) in
    let s : LinuxControlScheduler =
      new_linux_scheduler period base_now (base_now +ℤ pos (suc passed)) linux_now in
    ap (Linux.wake s) (
      ap (λ target. sleep eintr (clock_nanosleep target)) (ap (add_duration linux_now) elapsed)
      ∙ ap (sleep eintr) refused
      ∙ sleep_error eintr error e0 e1)

-- The results of some interrupted sleeps, and then of one that ends.
abbrev pub interrupted : ℕ → ℕ → List ℕ
interrupted eintr zero = 0 ∷ []
interrupted eintr (suc n) = eintr ∷ interrupted eintr n

sleep-interrupted : (eintr n : ℕ) → eintr ≢ 0 → sleep eintr (interrupted eintr n) ≡ Sleep.woken
unfolding sleep
sleep-interrupted eintr zero e = refl
sleep-interrupted eintr (suc n) e = ground (arith, sleep-interrupted eintr n e)

-- However often the sleep is interrupted by a signal, once it ends the wait returns: it gives the
-- scheduled time and moves the schedule on by one period.
pub wait-interrupted :
    (eintr n : ℕ) (clock_nanosleep : TimeSpec → List ℕ) (s : LinuxControlScheduler)
    → eintr ≢ 0
    → clock_nanosleep (wake_target s) ≡ interrupted eintr n
    → Linux.wait_for_next_cycle eintr clock_nanosleep s
      ≡ Linux.Wait.returned (record s { base = advance_schedule s.base }) (scheduled_cycle s.base)
unfolding Linux.wait_for_next_cycle
wait-interrupted eintr n clock_nanosleep s e answers =
    ap (Linux.wake s) (ap (sleep eintr) answers ∙ sleep-interrupted eintr n e)
