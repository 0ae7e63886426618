-- ===== src/Frr/Tests.antt =====
-- 3-31/frr.c at concrete inputs.
use mac_os_x_internal.Prelude.{ℕ, ◌≡◌, ◌≢◌, arith, refl, ◌∷◌, [], true, false, some, none, pos}
use mac_os_x_internal.Frr.{
  System, Store, frr_install, frr_remove, branch_word, protect, fill_stub, reroute, error_exit,
  hw_compare_and_store,
}
use mac_os_x_internal.HwCs.{looptry}
use mac_os_x_internal.HwCs.Atomic.{looptry_alone}
use mac_os_x_internal.Frr.Install.{Serves, IsInstalled, frr_install-IsInstalled}
use mac_os_x_internal.Frr.Errors.{frr_install_dangling}
use mac_os_x_internal.Frr.Demo
use mac_os_x_internal.Frr.Demo.{Code, goes_on}
use mac_os_x_internal.Frr.Demo.Rerouting.{IsApart, main_rerouted, demo_lines}
use mac_os_x_internal.Frr.Remove.{frr_remove-frr_install}

abbrev clean : Store
clean = record {
  word = λ a. 0x7c0802a6;
  block = λ a. record { f_orig = 0; f_new = 0; f_stub = 0; f_bytes = 0 };
  freed = [];
}

abbrev healthy : System
healthy = record {
  malloc_data = some 0x500000;
  malloc_stub = some 0x500100;
  protect_orig = true;
  protect_stub = true;
  compare_and_store = λ old new word. looptry old new [] word;
}

abbrev unprotected : System
unprotected = record healthy { protect_stub = false }

healthy-Serves : Serves healthy 0x500000 0x500100
healthy-Serves = record {
  malloc_data = refl;
  malloc_stub = refl;
  protect_orig = refl;
  protect_stub = refl;
  stores = λ w new. looptry_alone w new;
}

frr_install-IsInstalled_example :
    ((frr_install healthy 0x2000 0x3000 clean).0 ≡ 0x500000)
    × IsInstalled 0x500000 0x2000 0x3000 0x500100 clean (frr_install healthy 0x2000 0x3000 clean).1
frr_install-IsInstalled_example =
    frr_install-IsInstalled healthy 0x2000 0x3000 0x500000 0x500100 clean healthy-Serves
      (omega arith) (omega arith) (omega arith) (omega arith) (omega arith) (omega arith)

-- The branch over the first instruction is `ba 0x3000`.
rerouted_word : (frr_install healthy 0x2000 0x3000 clean).1.word 0x2000 ≡ 0x48003002
unfolding frr_install protect fill_stub reroute error_exit hw_compare_and_store branch_word looptry
rerouted_word = refl

frr_remove-frr_install_example :
    let u = frr_remove healthy 0x500000 (frr_install healthy 0x2000 0x3000 clean).1 in
    (u.0 ≡ pos 0)
    × ((a : ℕ) → a ≢ 0x500100 → a ≢ 0x500104 → u.1.word a ≡ 0x7c0802a6)
    × (u.1.freed ≡ 0x500000 ∷ 0x500100 ∷ [])
frr_remove-frr_install_example =
    frr_remove-frr_install healthy 0x2000 0x3000 0x500000 0x500100 clean healthy-Serves
      (omega arith) (omega arith) (omega arith) (omega arith) (omega arith) (omega arith)

frr_install_dangling_example :
    let r = frr_install unprotected 0x2000 0x3000 clean in
    (r.0 ≡ 0x500000) × (r.1.freed ≡ 0x500000 ∷ 0x500100 ∷ []) × (r.1.word ≡ clean.word)
frr_install_dangling_example =
    frr_install_dangling unprotected 0x2000 0x3000 clean 0x500000 0x500100 (omega arith) refl refl
      refl (omega arith) (omega arith)

-- Another thread has put a `nop` over the branch.
abbrev raced : System
raced = record healthy { compare_and_store = λ old new word. looptry old new [] 0x60000000 }

abbrev rerouted : Store
rerouted = record clean {
  block = λ a. record { f_orig = 0x2000; f_new = 0x3000; f_stub = 0x500100; f_bytes = 0x7c0802a6 };
}

-- Without memory for the metadata.
abbrev exhausted : System
exhausted = record healthy { malloc_data = none }

abbrev demo_code : Code
demo_code = record { original = 0x2000; new = 0x3000; first = 0x7c0802a6 }

demo_code-IsApart : IsApart demo_code 0x500100
demo_code-IsApart = record {
  new_apart = omega arith;
  new_apart' = omega arith;
  stub_apart = omega arith;
  stub_apart' = omega arith;
  stub_new = omega arith;
  stub_new' = omega arith;
  stub_second = omega arith;
}

plain_first : goes_on 0x7c0802a6 ≡ true
unfolding goes_on
plain_first = refl

main_rerouted_example :
    let t = (frr_install healthy 0x2000 0x3000 clean).1 in
    let u = (frr_remove healthy 0x500000 t).1 in
    (Demo.main healthy demo_code clean ≡ some (pos 0, demo_lines, u))
    × ((a : ℕ) → a ≢ 0x500100 → a ≢ 0x500104 → u.word a ≡ 0x7c0802a6)
    × (u.freed ≡ 0x500000 ∷ 0x500100 ∷ [])
main_rerouted_example =
    main_rerouted healthy demo_code 0x500000 0x500100 clean healthy-Serves (omega arith)
      (omega arith) refl refl demo_code-IsApart refl plain_first (omega arith) (omega arith)
