-- ===== src/Cnid2path/Tests.antt =====
-- 12-15/cnid2path.c at concrete inputs.
use mac_os_x_internal.Prelude.{ℕ, ◌≡◌, ◌==◌, if◌then◌else◌, [], ◌∷◌, some, arith, refl}
use mac_os_x_internal.Cnid2path.{Resolved, named, printed, main}
use mac_os_x_internal.Cnid2path.Joining.{IsPath, at_top, inside, main-printed}

-- The file 20, "ab", stands in the folder 2 at the top of the volume "V".
abbrev volume_v : ℕ → Resolved
volume_v id =
    if id == 20 then named (97 ∷ 98 ∷ []) 2 else if id == 2 then named (86 ∷ []) 1 else named [] id

volume_v-IsPath : IsPath volume_v 20 (47 ∷ 86 ∷ 47 ∷ 97 ∷ 98 ∷ [])
volume_v-IsPath =
    inside 2 (97 ∷ 98 ∷ []) (47 ∷ 86 ∷ []) refl (omega arith) (omega arith, (omega arith, tt))
      (inside 1 (86 ∷ []) [] refl (omega arith) (omega arith, tt) (at_top [] refl))

main-printed_example : main volume_v (some 20) ≡ printed (86 ∷ []) (97 ∷ 98 ∷ [])
main-printed_example =
    main-printed volume_v 20 (86 ∷ []) (97 ∷ 98 ∷ []) volume_v-IsPath (omega arith, tt)
      (omega arith)
