-- ===== src/Lstasks/Output.antt =====
-- 7-21/lstasks.c: the printed lines, and the tables of names with the tests before each use.
use mac_os_x_internal.Prelude.{
  ℕ, zero, suc, ◌-◌, ◌&&◌, List, [], ◌∷◌, Option, none, some, ltb, leb, if◌then◌else◌, ℤ, pos,
  negsuc, is_neg, pattern_of, get_elem?,
}
pub use Prim.Native.String.{String}

-- A line of the output: a label, and the values that stand behind it.
pub data Line : Type 0 where
  text : String → Line
  num : String → ℕ → Line
  two : String → ℕ → ℕ → Line
  named : String → ℕ → Option String → Line
  tokens : String → List ℕ → Line

abbrev pub task_roles : List String
task_roles =
    "RENICED" ∷ "UNSPECIFIED" ∷ "FOREGROUND_APPLICATION" ∷ "BACKGROUND_APPLICATION"
    ∷ "CONTROL_APPLICATION" ∷ "GRAPHICS_SERVER" ∷ []

abbrev pub task_roles_max : ℕ
task_roles_max = 6

abbrev pub thread_policies : List String
thread_policies = "UNKNOWN?" ∷ "STANDARD|EXTENDED" ∷ "TIME_CONSTRAINT" ∷ "PRECEDENCE" ∷ []

abbrev pub thread_policies_max : ℕ
thread_policies_max = 4

abbrev pub thread_states : List String
thread_states = "NONE" ∷ "RUNNING" ∷ "STOPPED" ∷ "WAITING" ∷ "UNINTERRUPTIBLE" ∷ "HALTED" ∷ []

abbrev pub thread_states_max : ℕ
thread_states_max = 6

-- An `int` beside a `size_t` of 32 bits is compared as its bit pattern.
abbrev pub as_size : ℤ → ℕ
as_size = pattern_of 32

-- The correction of `basic_info->policy` before it is an index.
unfoldable pub clamped_policy : ℤ → ℤ
clamped_policy policy =
    if is_neg policy && ltb thread_policies_max (as_size policy) then pos 0 else policy

-- `thread_policies[policy]`, `none` where the index is outside the table.
unfoldable pub policy_name : ℤ → Option String
policy_name (pos n) = get_elem? thread_policies n
policy_name (negsuc n) = none

-- The line for the role, if its two tests pass.
unfoldable pub role_lines : ℤ → List Line
role_lines (pos role) =
    if ltb (as_size (pos role)) (task_roles_max - 1)
    then named "role" 0 (get_elem? task_roles (suc role)) ∷ []
    else []
role_lines (negsuc zero) =
    if ltb (as_size (negsuc zero)) (task_roles_max - 1)
    then named "role" 0 (get_elem? task_roles 0) ∷ []
    else []
role_lines (negsuc (suc n)) = []

-- `(run_state >= THREAD_STATES_MAX) ? "?" : thread_states[run_state]`, for a state of either sign.
unfoldable pub state_name : ℤ → Option String
state_name state =
    if leb thread_states_max (as_size state)
    then some "?"
    else get_elem? thread_states (as_size state)
