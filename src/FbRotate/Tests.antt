-- ===== src/FbRotate/Tests.antt =====
-- 10-23/fb-rotate.c at concrete inputs.
use mac_os_x_internal.Prelude.{◌≡◌, refl, some, pos, negsuc, [], ◌∷◌}
use mac_os_x_internal.FbRotate.{
  rotate0, rotate90, angle2options, is_right, angle_index, anglebits_at, main, d, r, probed,
}

-- `fb-rotate -d 0 -r 450` turns the main display, here 7, by 90 degrees.
main_display_turned : main 7 0 (pos 0) (d 0 ∷ r (pos 450) ∷ []) ≡ probed 7 (some rotate90)
unfolding main angle2options is_right angle_index anglebits_at
main_display_turned = refl

-- Any other angle resets the rotation.
slanted : angle2options (negsuc 44) ≡ some rotate0
unfolding angle2options is_right
slanted = refl
