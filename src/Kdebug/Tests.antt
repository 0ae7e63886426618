-- ===== src/Kdebug/Tests.antt =====
-- 6-29/kdebug.c at concrete inputs.
use mac_os_x_internal.Prelude.{◌^◌, ◌%◌, [], ◌∷◌, true, false, pos}
use mac_os_x_internal.Kdebug.{System, readtr, main, sample}
use mac_os_x_internal.Kdebug.Decode.{Masks}
use mac_os_x_internal.Kdebug.Tracing.{main-IsQuiet, IsQuiet}

-- Nothing fails, or nothing but the reading of the buffer does.
abbrev willing : System
willing log r = true

abbrev unread : System
unread log readtr = false
unread log _ = true

abbrev masks : Masks
masks = record {
  now = λ t. t % 2 ^ 56;
  cpu = λ t. 0;
  func_start = λ _. true;
  func_end = λ _. false;
}

main-IsQuiet_example : IsQuiet (main unread masks 12 2 (pos 7) true (sample [] ∷ [])).1
main-IsQuiet_example = main-IsQuiet unread masks 12 2 (pos 7) true (sample [] ∷ [])
