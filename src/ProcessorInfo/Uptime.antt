-- ===== src/ProcessorInfo/Uptime.antt =====
-- 7-6/processor_info.c: the time that is printed.
use mac_os_x_internal.Prelude.{
  ℕ, ◌+◌, ◌*◌, ◌/◌, ◌%◌, ◌^◌, ◌≤◌, ◌<◌, ◌≡◌, Bool, List, ◌∷◌, [], Option, arith, refl,
}
use mac_os_x_internal.Prelude.Ledger.{Settles, none_held}
use mac_os_x_internal.ProcessorInfo.{
  LoadInfo, Processor, ticks_line, uptime, ticks_of, print_cpu_load_info, main,
}

-- The hours, minutes and seconds of a number of ticks, of which there are 100 in a second.
pub record IsUptime (ticks hours minutes seconds : ℕ) : Type 0 where
  pub few_minutes : minutes < 60
  pub few_seconds : seconds < 60
  pub started : (hours * 3600 + minutes * 60 + seconds) * 100 ≤ ticks
  pub completed : ticks < (hours * 3600 + minutes * 60 + seconds + 1) * 100

-- Where the ticks of a processor fit a 32-bit word in all, the lines show their sum, and as hours, minutes below 60 and seconds
-- below 60 the whole seconds that they last.
pub print_cpu_load_info-IsUptime :
    (info : LoadInfo)
    → info.user + info.system + info.idle + info.nice < 2 ^ 32
    → let ticks = info.user + info.system + info.idle + info.nice in
      (hours : ℕ) × (minutes : ℕ) × (seconds : ℕ) × (print_cpu_load_info info
        ≡ ticks_line ticks info ∷ uptime hours minutes seconds ∷ [])
      × IsUptime ticks hours minutes seconds
unfolding print_cpu_load_info
print_cpu_load_info-IsUptime info fits =
    let ticks = info.user + info.system + info.idle + info.nice in
    let sum : ticks_of info ≡ ticks = omega (arith, fits) in
    (
      ticks / 100 / 3600,
      ticks / 100 % 3600 / 60,
      ticks / 100 % 60,
      rw sum refl,
      record {
        few_minutes = omega arith;
        few_seconds = omega arith;
        started = omega arith;
        completed = omega arith;
      },
    )

-- `main` gives the list of processors back.
pub main-Settles :
    (privileged : Bool) (processors : Option (List Processor))
    → Settles none_held (main privileged processors).2 none_held
unfolding main
main-Settles privileged processors = ground arith
