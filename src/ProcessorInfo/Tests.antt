-- ===== src/ProcessorInfo/Tests.antt =====
-- 7-6/processor_info.c at concrete inputs.
use mac_os_x_internal.Prelude.{◌≡◌, ◌∷◌, [], refl}
use mac_os_x_internal.ProcessorInfo.{LoadInfo, ticks_line, uptime, print_cpu_load_info}

abbrev busy : LoadInfo
busy = record { user = 366100; system = 250; idle = 0; nice = 49 }

busy_lines : print_cpu_load_info busy ≡ ticks_line 366399 busy ∷ uptime 1 1 3 ∷ []
unfolding print_cpu_load_info
busy_lines = refl
