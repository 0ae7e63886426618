-- ===== src/HostAlarm/Elapsed.antt =====
-- 6-3/host_alarm.c: the time that is printed, and the ports.
use mac_os_x_internal.Prelude.{ℕ, ◌+◌, ◌-◌, ◌*◌, ◌≤◌, ◌<◌, ◌≡◌, true, false, arith, pos, dec_lt}
use mac_os_x_internal.Prelude.Ledger.{Settles, none_held}
use mac_os_x_internal.HostAlarm.{Timeval, minus, elapsed, Calls, out, main}

-- A time in microseconds.
abbrev pub micros : Timeval → ℕ
micros t = t.tv_sec * 1000000 + t.tv_usec

abbrev pub IsNormal : Timeval → Type 0
IsNormal t = t.tv_usec < 1000000

-- Where the microseconds of both times are below a million and the clock has not been set back, the two numbers are not negative, the
-- second is below a million, and together with the first time they give the second one.
pub elapsed-micros :
    (t1 t2 : Timeval)
    → IsNormal t1
    → IsNormal t2
    → micros t1 ≤ micros t2
    → (s : ℕ) × (u : ℕ) × (elapsed t1 t2 ≡ (pos s, pos u))
      × (u < 1000000)
      × (micros t1 + (s * 1000000 + u) ≡ micros t2)
unfolding elapsed minus
elapsed-micros t1 t2 normal1 normal2 later = elim (dec_lt t2.tv_usec t1.tv_usec) [
  | yes borrows ↦ (
    t2.tv_sec - (t1.tv_sec + 1),
    t2.tv_usec + 1000000 - t1.tv_usec,
    ground arith,
    omega arith,
    omega arith,
  )
  | no enough ↦
      (t2.tv_sec - t1.tv_sec, t2.tv_usec - t1.tv_usec, ground arith, omega arith, omega arith)
]

-- Once both ports have been acquired, `main` releases each of them once, whatever fails after that.
pub main-Settles :
    (calls : Calls) (clk alarm : ℕ)
    → calls.get_clock ≡ true
    → calls.allocate ≡ true
    → Settles none_held (main calls clk alarm).1 none_held
unfolding main out
main-Settles calls clk alarm has_clock has_port = ground arith

-- Before that, it releases what stands in a variable that has not been set.
pub main-unset :
    (calls : Calls) (clk alarm : ℕ)
    → calls.get_clock ≡ false
    → ¬ Settles none_held (main calls clk alarm).1 none_held
unfolding main out
main-unset calls clk alarm no_clock = ground arith
