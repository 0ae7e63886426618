-- ===== src/Chud/Tests.antt =====
-- 6-32/CHUDSyscallExtension.c at concrete inputs.
use mac_os_x_internal.Prelude.{ℕ, ◌≡◌, ◌≢◌, ◌⊎◌, true, false, [], none, some, refl, update}
use mac_os_x_internal.Chud.{
  outside, in_wrapper, copying, crashed, returned, State, initial, Reach, here, next, extension,
  calling, kern_success, kern_failure, callback_func_example, extension_step, take_store,
  callback_wrapper, store, ppc_sys_call_kext_start, ppc_syscall_callback_enter, run_callback,
}
use mac_os_x_internal.Chud.Serving.{Reach-IsServed}

-- The extension has started.
abbrev started : State
started = record {
  callback_func = some callback_func_example;
  ppc_calls = true;
  pending = [];
  stopping = false;
  caller = λ i. outside;
}

-- Call 3 has been served.
abbrev answered : State
answered = record started {
  caller = update (update (update (λ i. outside) 3 in_wrapper) 3 copying) 3 (returned (some 0));
}

-- The table entry is set before the callback.
started-Reach : Reach initial started
unfolding extension_step take_store store ppc_sys_call_kext_start ppc_syscall_callback_enter
started-Reach = next (next here (extension true refl)) (extension false refl)

answered-Reach : Reach started answered
unfolding callback_wrapper run_callback
answered-Reach =
    next (next (next here (calling true 3 refl)) (calling true 3 refl)) (calling true 3 refl)

Reach-IsServed_example :
    (answered.stopping ≡ false
      → (i : ℕ)
      → (answered.caller i ≢ crashed)
        × ((code : ℕ)
            → answered.caller i ≡ returned (some code)
            → ((code ≡ kern_success) ⊎ (code ≡ kern_failure))
              × (started.pending ≡ [] → started.caller i ≡ outside → code ≡ kern_success)))
    × (answered.stopping ≡ true
        → answered.pending ≡ []
        → (answered.callback_func ≡ none) × (answered.ppc_calls ≡ false))
Reach-IsServed_example = Reach-IsServed started answered started-Reach answered-Reach
