-- ===== src/Vmm/Tests.antt =====
-- 6-51/vmachmon32.c at concrete inputs.
use mac_os_x_internal.Prelude.{◌+◌, ◌≡◌, refl, arith, [], ◌∷◌, some, none, pos}
use mac_os_x_internal.Vmm.{System, allocate, deallocate, main, usage}
use mac_os_x_internal.Vmm.Code.{Regs, guest_text_dummy, guest_text_factorial}
use mac_os_x_internal.Vmm.Pages.{deallocated, allocated, torn_down, contexts, main_balanced}
use mac_os_x_internal.Vmm.Demo.{run, after_dummy, dummy_result}

abbrev zeroed : Regs
zeroed = record { gprs = λ _. 0; pc = 0x1000; lr = 0 }

-- The third allocation fails with code 3.
abbrev no_stack : System
no_stack = record {
  page_size = 0x1000;
  red_zone = 224;
  blank = record { text = λ _. 0; regs = zeroed };
  allocate_state = (0, 0x8000);
  allocate_text = (0, 0x9000);
  allocate_stack = (3, 0xa000);
  init_code = 0;
  map_code = 0;
  execute_code = 0;
  tear_down_code = 0;
}

no_stack_run :
    main no_stack 0
    ≡ (3, allocate 0x8000 ∷ allocate 0x9000 ∷ deallocate 0x8000 ∷ deallocate 0x9000 ∷ [])
unfolding main
no_stack_run = refl

main_balanced_example :
    let events = (main no_stack 0).1 in
    (deallocated events ≡ allocated events) × (torn_down events ≡ contexts events)
main_balanced_example = main_balanced no_stack 0 (omega arith) (omega arith) (omega arith)

dummy_result_example :
    (run 4 (guest_text_dummy (λ _. 0) 0x1000) 0x1000 zeroed ≡ some (after_dummy 0x1000 zeroed))
    × ((after_dummy 0x1000 zeroed).pc ≡ 0x1000 + 20)
    × ((after_dummy 0x1000 zeroed).gprs 12 ≡ 4 + 5)
    × (run 5 (guest_text_dummy (λ _. 0) 0x1000) 0x1000 zeroed ≡ none)
dummy_result_example = dummy_result (λ _. 0) 0x1000 zeroed (omega arith) (omega arith) refl

-- The second demo has its argument in GPR3 and its last word in the text.
factorial_words :
    ((guest_text_factorial (λ _. 0) 0x1000 0x1000 zeroed).0 25 ≡ 0x4e800020)
    × ((guest_text_factorial (λ _. 0) 0x1000 0x1000 zeroed).1.lr ≡ 0x1ffc)
unfolding guest_text_factorial
factorial_words = (refl, refl)

third_demo : usage 2 (pos 2) ≡ none
unfolding usage
third_demo = refl
