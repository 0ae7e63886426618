-- ===== src/VmInherit/Tests.antt =====
-- 8-14/vm_inherit.c at concrete inputs.
use mac_os_x_internal.Prelude.{◌≡◌, refl, true, false, [], none}
use mac_os_x_internal.Prelude.Ledger.{acquire, release}
use mac_os_x_internal.Prelude.{◌∷◌}
use mac_os_x_internal.VmInherit.{Calls, main, out}

-- The second page cannot be allocated.
abbrev half : Calls
half = record {
  allocate_shared = true;
  allocate_cow = false;
  inherit_shared = true;
  inherit_cow = true;
  fork_fails = false;
}

half_pages :
    (main half (λ event object. none) (record { page_shared = 1; page_cow = 2 }) 3 4 (λ a. 0)).1
    ≡ acquire 1 ∷ release 1 ∷ []
unfolding main out
half_pages = refl
