-- ===== src/Testright/Tests.antt =====
-- 2-35/testright.c at concrete inputs.
use mac_os_x_internal.Prelude.{◌≡◌, refl, true}
use mac_os_x_internal.Testright.{Calls, no_err, denied, failed_to_acquire, main, finish, authorize}

-- The right is defined, and refused.
abbrev refused : Calls
refused = record { create = no_err; right_get = denied; right_set = no_err; copy_rights = denied }

refused_lem : ((main refused).0 ≡ failed_to_acquire) × ((main refused).2 ≡ true)
unfolding main finish authorize
refused_lem = (refl, refl)
