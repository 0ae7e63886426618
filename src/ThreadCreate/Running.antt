-- ===== src/ThreadCreate/Running.antt =====
-- 7-20/thread_create.c: the new thread runs, and ends the process.
use mac_os_x_internal.Prelude.{◌+◌, ◌≤◌, ◌<◌, ◌≡◌, ◌≢◌, [], ◌∷◌, arith}
use mac_os_x_internal.ThreadCreate.{
  PpcThreadState, Layout, Calls, routine_line, exit_line, exits, new_state, my_thread_setup, run_at,
  main,
}

-- Every call of `main` and of `my_thread_setup` succeeds.
abbrev pub Succeeds : Calls → Type 0
Succeeds calls =
    (calls.create ≡ 0) × (calls.get_state ≡ 0) × (calls.set_state ≡ 0) × (calls.resume ≡ 0)

-- Where every call succeeds, the new thread runs `my_thread_routine` and then, by its return address, `my_thread_exit`, which ends the
-- process with 0.
pub main-exits :
    (layout : Layout) (calls : Calls)
    → Succeeds calls
    → layout.my_thread_routine ≢ layout.my_thread_exit
    → main layout calls ≡ (routine_line ∷ exit_line ∷ [], exits 0)
unfolding main my_thread_setup new_state run_at
main-exits layout calls succeeds apart = ground arith

-- Where a call fails, nothing is printed, and the status is not 0.
pub main-fails :
    (layout : Layout) (calls : Calls)
    → ¬ Succeeds calls
    → ((main layout calls).0 ≡ []) × ((main layout calls).1 ≢ exits 0)
unfolding main my_thread_setup
main-fails layout calls some_fails = ground arith

-- The stack pointer lies in the array, with room above it for the arguments and the red zone, but below a quarter of the array, which has as many words
-- of four bytes as a page has bytes.
pub new_state-r1 :
    (layout : Layout) (state : PpcThreadState)
    → layout.c_argsave_len + layout.c_red_zone < layout.page_size
    → let r1 = (new_state layout state).r1 in
      (layout.thread_stack < r1)
      × (r1 + layout.c_argsave_len + layout.c_red_zone ≡ layout.thread_stack + layout.page_size)
      × (r1 ≤ layout.thread_stack + layout.page_size)
unfolding new_state
new_state-r1 layout state fits = ground arith
