-- ===== src/Bits/Tests.antt =====
-- 6-51/vmachmon32.c and 6-28/commpage32.c at concrete inputs.
use mac_os_x_internal.Prelude.{ℕ, ◌≡◌, refl, [], ◌∷◌, Option, none, some, if◌then◌else◌, ◌==◌}
use mac_os_x_internal.Bits.{print_cpu_capabilities, capabilities_from}

-- Bits 0 and 31 are named, and both are set: only the first is printed.
abbrev two_names : ℕ → Option ℕ
two_names i = if i == 0 then some 7 else if i == 31 then some 8 else none

printed : print_cpu_capabilities two_names 0x80000001 ≡ 7 ∷ []
unfolding print_cpu_capabilities capabilities_from
printed = refl
