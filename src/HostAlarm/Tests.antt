-- ===== src/HostAlarm/Tests.antt =====
-- 6-3/host_alarm.c at concrete inputs.
use mac_os_x_internal.Prelude.{ℕ, ◌≡◌, ◌+◌, ◌*◌, ◌<◌, arith, pos}
use mac_os_x_internal.HostAlarm.{Timeval, elapsed}
use mac_os_x_internal.HostAlarm.Elapsed.{elapsed-micros}

abbrev before : Timeval
before = record { tv_sec = 10; tv_usec = 990000 }

abbrev after : Timeval
after = record { tv_sec = 13; tv_usec = 40000 }

elapsed-micros_example :
    (s : ℕ) × (u : ℕ) × (elapsed before after ≡ (pos s, pos u))
    × (u < 1000000)
    × (10990000 + (s * 1000000 + u) ≡ 13040000)
elapsed-micros_example = elapsed-micros before after (omega arith) (omega arith) (omega arith)
