-- ===== src/Vmm/Pages.antt =====
-- 6-51/vmachmon32.c: pages are given back, and the order of the calls.
use mac_os_x_internal.Prelude.{ℕ, ◌≡◌, ◌≢◌, arith, List, [], ◌∷◌, suc, ◌==◌, if◌then◌else◌}
use mac_os_x_internal.Vmm.{System, Event, allocate, init_context, tear_down, deallocate, main}

abbrev pub allocated : List Event → List ℕ
allocated [] = []
allocated (allocate p ∷ es) = p ∷ allocated es
allocated (_ ∷ es) = allocated es

abbrev pub deallocated : List Event → List ℕ
deallocated [] = []
deallocated (deallocate p ∷ es) = p ∷ deallocated es
deallocated (_ ∷ es) = deallocated es

-- How often a context is initialised, and how often one is torn down.
abbrev pub contexts : List Event → ℕ
contexts [] = 0
contexts (init_context ∷ es) = suc (contexts es)
contexts (_ ∷ es) = contexts es

abbrev pub torn_down : List Event → ℕ
torn_down [] = 0
torn_down (tear_down ∷ es) = suc (torn_down es)
torn_down (_ ∷ es) = torn_down es

-- Whatever the kernel answers, if no page that it allocates is at address 0, then the pages that `main`
-- gives back before it exits are those that it has allocated, each once and in the same order, and it
-- tears down as many contexts as it has initialised if the call that tears one down succeeds, and none if it fails.
pub main_balanced :
    (sys : System) (demo : ℕ)
    → sys.allocate_state.1 ≢ 0
    → sys.allocate_text.1 ≢ 0
    → sys.allocate_stack.1 ≢ 0
    → let events = (main sys demo).1 in
      (deallocated events ≡ allocated events)
      × (torn_down events ≡ (if sys.tear_down_code == 0 then contexts events else 0))
unfolding main
main_balanced sys demo p q r = ground arith
