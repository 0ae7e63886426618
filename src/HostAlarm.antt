-- ===== src/HostAlarm.antt =====
-- 6-3/host_alarm.c: sets an alarm with the clock of the system, and prints after how much time it rang.
pub mod Elapsed
mod Tests
use mac_os_x_internal.Prelude.{
  ℕ, ◌+◌, ◌-◌, Bool, true, false, not, List, [], ◌∷◌, ◌++◌, Option, none, some, ltb, if◌then◌else◌,
  ℤ, pos, negsuc,
}
use mac_os_x_internal.Prelude.Ledger.{Ledger, acquire, release}

pub record Timeval : Type 0 where
  pub tv_sec : ℕ
  pub tv_usec : ℕ

-- A difference of two numbers.
unfoldable pub minus : ℕ → ℕ → ℤ
minus a b = if ltb a b then negsuc (b - a - 1) else pos (a - b)

-- The two numbers that are printed as the time after which the alarm rang. Where the microseconds would be negative, a second is taken over: 1 is added to the
-- seconds of `t1`, and 1000000 taken from its microseconds.
unfoldable pub elapsed : (t1 t2 : Timeval) → ℤ × ℤ
elapsed t1 t2 =
    if ltb t2.tv_usec t1.tv_usec
    then (minus t2.tv_sec (t1.tv_sec + 1), minus (t2.tv_usec + 1000000) t1.tv_usec)
    else (minus t2.tv_sec t1.tv_sec, minus t2.tv_usec t1.tv_usec)

-- Which calls succeed, and the times before and after the alarm.
pub record Calls : Type 0 where
  pub get_clock : Bool
  pub allocate : Bool
  pub set_alarm : Bool
  pub receive : Bool
  pub t1 : Timeval
  pub t2 : Timeval

-- The ports, and what stands in a variable that has not been set.
abbrev pub clk_system : ℕ
clk_system = 0

abbrev pub alarm_port : ℕ
alarm_port = 1

-- The label `out`: both variables are deallocated.
unfoldable pub out : (clk alarm : ℕ) → List Ledger
out clk alarm = release clk ∷ release alarm ∷ []

-- `main`: what it prints as the time that has passed, and the ports that it acquires and releases. `clk` and `alarm` are what the variables hold before they are set. The
-- exit status is always 0.
unfoldable pub main : Calls → (clk alarm : ℕ) → Option (ℤ × ℤ) × List Ledger
main calls clk alarm =
    if not calls.get_clock
    then (none, out clk alarm)
    else if not calls.allocate
    then (none, acquire clk_system ∷ out clk_system alarm)
    else let held = acquire clk_system ∷ acquire alarm_port ∷ out clk_system alarm_port in
      if not calls.set_alarm
      then (none, held)
      else if not calls.receive
      then (none, held)
      else (some (elapsed calls.t1 calls.t2), held)
