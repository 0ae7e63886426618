-- ===== src/Xattr/Tests.antt =====
-- 12-20/xattr.c at concrete inputs.
use mac_os_x_internal.Prelude.{◌≡◌, true, [], none, refl, pos}
use mac_os_x_internal.Xattr.{exits, main, process_options}

-- Without an option the status is not set.
unset_status : main (λ call. pos 0) true [] ≡ ([], exits none)
unfolding main process_options
unset_status = refl
