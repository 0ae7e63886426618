-- ===== src/Lstasks/Thread.antt =====
-- 7-21/lstasks.c: the lines for one thread.
use mac_os_x_internal.Prelude.{
  ℕ, ◌+◌, ◌-◌, Bool, List, [], ◌∷◌, ◌++◌, Option, none, some, if◌then◌else◌, ℤ,
}
use mac_os_x_internal.Lstasks.Output.{Line, num, two, named, state_name, as_size}

pub record Time : Type 0 where
  pub seconds : ℕ
  pub microseconds : ℕ

-- What `thread_policy_get` gives for the policy of the thread, `none` where it fails.
pub data Policy : Type 0 where
  extended : Option Bool → Policy
  time_constraint : Option (ℕ × ℕ × ℕ × Bool) → Policy
  precedence : Option ℕ → Policy
  unknown : Policy

-- `thread_basic_info`.
pub record ThreadInfo : Type 0 where
  pub user_time : Time
  pub system_time : Time
  pub cpu_usage : ℕ
  pub policy : Policy
  pub run_state : ℤ
  pub flags : ℕ
  pub is_idle : Bool
  pub suspend_count : ℕ
  pub sleep_time : ℕ

-- The switch on `basic_info_th->policy`.
unfoldable pub policy_lines : Policy → List Line
policy_lines (extended none) = []
policy_lines (extended (some timeshare)) =
    named "scheduling policy" 0 (some (if timeshare then "STANDARD" else "EXTENDED")) ∷ []
policy_lines (time_constraint none) = []
policy_lines (time_constraint (some (period, computation, constraint, preemptible))) =
    named "scheduling policy" 0 (some "TIME_CONSTRAINT")
    ∷ num "period" period
    ∷ num "computation" computation
    ∷ num "constraint" constraint
    ∷ named "preemptible" 0 (some (if preemptible then "TRUE" else "FALSE"))
    ∷ []
policy_lines (precedence none) = []
policy_lines (precedence (some importance)) =
    named "scheduling policy" 0 (some "PRECEDENCE") ∷ num "importance" importance ∷ []
policy_lines unknown = named "scheduling policy" 0 (some "UNKNOWN?") ∷ []

-- The body of the loop for thread `j` of `count`; nothing is printed where `thread_info` fails.
unfoldable pub thread_lines : ℕ → ℕ → Option ThreadInfo → List Line
thread_lines j count none = []
thread_lines j count (some t) =
    two "thread" j (count - 1)
      ∷ two "user run time" t.user_time.seconds t.user_time.microseconds
      ∷ two "system run time" t.system_time.seconds t.system_time.microseconds
      ∷ num "scaled cpu usage percentage" t.cpu_usage
      ∷ policy_lines t.policy
    ++ named "run state" (as_size t.run_state) (state_name t.run_state)
      ∷ named "flags" t.flags (if t.is_idle then some "(IDLE)" else none)
      ∷ num "suspend count" t.suspend_count
      ∷ num "sleeping for time" t.sleep_time
      ∷ []

-- The loop over the threads from index `j` on.
unfoldable pub threads_lines : ℕ → ℕ → List (Option ThreadInfo) → List Line
threads_lines j count [] = []
threads_lines j count (t ∷ ts) = thread_lines j count t ++ threads_lines (j + 1) count ts
