-- ===== src/HwCs/Tests.antt =====
-- 3-28/hw_cs.s at concrete inputs.
use mac_os_x_internal.Prelude.{[], ◌∷◌, ◌≡◌, refl, none, some}
use mac_os_x_internal.HwCs.{looptry}
use mac_os_x_internal.HwCs.Atomic.{found, IsAtomic, looptry-IsAtomic}

-- The reservation is lost once without a store, and once to a store of 9.
overtaken : looptry 5 6 (none ∷ some 9 ∷ []) 5 ≡ (0, 9)
unfolding looptry
overtaken = refl

looptry-IsAtomic_example : IsAtomic 5 6 (found (none ∷ []) 5) (looptry 5 6 (none ∷ []) 5)
looptry-IsAtomic_example = looptry-IsAtomic 5 6 (none ∷ []) 5
