-- ===== src/ThreadCreate.antt =====
-- 7-20/thread_create.c: a Mach thread that is given its registers before it runs.
pub mod Running
mod Tests
use mac_os_x_internal.Prelude.{
  ℕ, zero, suc, ◌+◌, ◌-◌, ◌*◌, Bool, true, false, List, [], ◌∷◌, Option, none, some, ltb, ◌==◌,
  if◌then◌else◌,
}

-- The registers of a thread that the program sets, and the others, which it keeps.
pub record PpcThreadState : Type 0 where
  pub srr0 : ℕ
  pub r1 : ℕ
  pub r3 : ℕ
  pub r4 : ℕ
  pub lr : ℕ
  pub others : ℕ → ℕ

-- Where the linker has put the functions, the string and the array `threadStack`, and the constants of the system.
pub record Layout : Type 0 where
  pub my_thread_routine : ℕ
  pub my_thread_exit : ℕ
  pub hello_mach : ℕ
  pub thread_stack : ℕ
  pub page_size : ℕ
  pub c_argsave_len : ℕ
  pub c_red_zone : ℕ

-- What the calls return, and the registers that the new thread has at first.
pub record Calls : Type 0 where
  pub create : ℕ
  pub get_state : ℕ
  pub set_state : ℕ
  pub resume : ℕ
  pub state : PpcThreadState

pub data Line : Type 0 where
  routine_line exit_line : Line

-- How the process ends: with a status; or not, since the main thread is suspended and the new one runs code that is not of this program.
pub data Ending : Type 0 where
  exits : ℕ → Ending
  astray : Ending

-- The registers that `my_thread_setup` sets. `stack` is moved by bytes.
unfoldable pub new_state : Layout → PpcThreadState → PpcThreadState
new_state layout state = record state {
  srr0 = layout.my_thread_routine;
  r1 = layout.thread_stack + (layout.page_size - layout.c_argsave_len - layout.c_red_zone);
  r3 = 16;
  r4 = layout.hello_mach;
  lr = layout.my_thread_exit;
}

-- `my_thread_setup`: the registers after it, or the code of the call that fails.
unfoldable pub my_thread_setup : Layout → Calls → Option ℕ × PpcThreadState
my_thread_setup layout calls =
    if ltb 0 calls.get_state
    then (some calls.get_state, calls.state)
    else if ltb 0 calls.set_state
    then (some calls.set_state, calls.state)
    else (none, new_state layout calls.state)

-- The new thread at an address: `my_thread_routine` returns to the address in `lr`, and `my_thread_exit` ends the process.
unfoldable pub run_at : (fuel : ℕ) → Layout → PpcThreadState → (pc : ℕ) → List Line × Ending
run_at zero layout state pc = ([], astray)
run_at (suc fuel) layout state pc =
    let (later, ending) = run_at fuel layout state state.lr in
    if pc == layout.my_thread_routine
    then (routine_line ∷ later, ending)
    else if pc == layout.my_thread_exit
    then (exit_line ∷ [], exits 0)
    else ([], astray)

-- `main`: what the process prints and how it ends. The main thread is suspended after the new one has been resumed.
unfoldable pub main : Layout → Calls → List Line × Ending
main layout calls =
    let (failure, state) = my_thread_setup layout calls in
    if ltb 0 calls.create then ([], exits calls.create) else elim failure [
      | some code ↦ ([], exits code)
      | none ↦
          if ltb 0 calls.resume then ([], exits calls.resume) else run_at 2 layout state state.srr0
    ]
