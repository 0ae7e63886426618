-- ===== src/Lstasks/Info.antt =====
-- 7-21/lstasks.c: what is asked about one task, and its lines but those of the threads.
use mac_os_x_internal.Prelude.{
  ℕ, zero, suc, ◌/◌, ◌^◌, Bool, true, false, ◌&&◌, List, [], ◌∷◌, ◌++◌, Option, none, some,
  if◌then◌else◌, ℤ, pos, negsuc, is_some,
}
use mac_os_x_internal.Lstasks.Output.{
  String, Line, text, num, two, named, tokens, clamped_policy, policy_name, role_lines, as_size,
}
use mac_os_x_internal.Lstasks.Thread.{Time, ThreadInfo}

-- `-s`, no option, and `-v`.
pub data Mode : Type 0 where
  summary brief verbose : Mode

-- `task_basic_info`.
pub record BasicInfo : Type 0 where
  pub virtual_size : ℕ
  pub resident_size : ℕ
  pub policy : ℤ
  pub user_time : Time
  pub system_time : Time

-- `task_absolutetime_info`.
pub record AbsoluteTime : Type 0 where
  pub total_user : ℕ
  pub total_system : ℕ
  pub threads_user : ℕ
  pub threads_system : ℕ

-- `task_events_info`.
pub record Events : Type 0 where
  pub faults : ℕ
  pub pageins : ℕ
  pub cow_faults : ℕ
  pub messages_sent : ℕ
  pub messages_received : ℕ
  pub syscalls_mach : ℕ
  pub syscalls_unix : ℕ
  pub csw : ℕ

-- A task as the kernel answers for it; `none` where a call fails. `pid_ok` is the success of
-- `pid_for_task`, `pid` what it stores; `psn` the answer for that process.
pub record Task : Type 0 where
  pub port : ℕ
  pub pid_ok : Bool
  pub pid : ℤ
  pub proc_name : String
  pub psn : Option (ℕ × ℕ)
  pub carbon_name : String
  pub basic : Option BasicInfo
  pub thread_times : Option (Time × Time)
  pub absolute : Option AbsoluteTime
  pub events : Option Events
  pub category : Option (ℤ × Bool)
  pub audit_token : Option (List ℕ)
  pub security_token : Option (List ℕ)
  pub threads : Option (List (Option ThreadInfo))

abbrev pub is_positive : ℤ → Bool
is_positive (pos zero) = false
is_positive (pos (suc n)) = true
is_positive (negsuc n) = false

-- `(kr == KERN_SUCCESS) && (pid > 0)`.
unfoldable pub is_bsd : Task → Bool
is_bsd t = t.pid_ok && is_positive t.pid

-- `GetProcessForPID` is asked for a positive pid, and answers with a serial number.
unfoldable pub is_carbon : Task → Bool
is_carbon t = is_positive t.pid && is_some t.psn

abbrev pub time_line : String → Time → Line
time_line label t = two label t.seconds t.microseconds

-- The task's number, its process and its serial number.
unfoldable pub head_lines : Mode → ℕ → Task → List Line
head_lines mode i t =
    num "Task" i
    ∷ (if is_bsd t
        then named "BSD process id (pid)" (as_size t.pid) (some t.proc_name)
        else named "BSD process id (pid)" 0 none)
    ∷ elim mode [
      | verbose ↦
          (if is_carbon t
            then named "Carbon process name" 0 (some t.carbon_name)
            else named "Carbon process name" 0 none)
          ∷ []
      | _ ↦
          (if is_positive t.pid
            then elim t.psn [ none ↦ named "PSN" 0 none | some n ↦ two "PSN" n.0 n.1 ]
            else named "PSN" 0 none)
          ∷ []
    ]

module _ {A : Type 0} where
  -- The lines for an answer, none where the call failed.
  abbrev pub lines_for : Option A → (A → List Line) → List Line
  lines_for none f = []
  lines_for (some a) f = f a

unfoldable pub basic_lines : BasicInfo → List Line
basic_lines b =
    num "virtual size" (b.virtual_size / 2 ^ 10)
    ∷ num "resident size" (b.resident_size / 2 ^ 10)
    ∷ named "default policy" (as_size (clamped_policy b.policy))
        (policy_name (clamped_policy b.policy))
    ∷ text "Thread run times"
    ∷ time_line "user (terminated)" b.user_time
    ∷ time_line "system (terminated)" b.system_time
    ∷ []

unfoldable pub absolute_lines : AbsoluteTime → List Line
absolute_lines a =
    text "Thread times (absolute)"
    ∷ num "user (total)" a.total_user
    ∷ num "system (total)" a.total_system
    ∷ num "user (live)" a.threads_user
    ∷ num "system (live)" a.threads_system
    ∷ []

unfoldable pub events_lines : Events → List Line
events_lines e =
    num "page faults" e.faults
    ∷ num "actual pageins" e.pageins
    ∷ num "copy-on-write faults" e.cow_faults
    ∷ num "messages sent" e.messages_sent
    ∷ num "messages received" e.messages_received
    ∷ num "Mach system calls" e.syscalls_mach
    ∷ num "Unix system calls" e.syscalls_unix
    ∷ num "context switches" e.csw
    ∷ []

-- The role, by whether `get_default` came back set.
unfoldable pub category_lines : ℤ × Bool → List Line
category_lines (role, true) = named "role" 0 (some "NONE") ∷ []
category_lines (role, false) = role_lines role

-- All of the verbose lines between the head and the threads.
unfoldable pub info_lines : Task → BasicInfo → List Line
info_lines t b =
    basic_lines b
    ++ lines_for t.thread_times
        (λ ts. time_line "user (live)" ts.0 ∷ time_line "system (live)" ts.1 ∷ [])
    ++ lines_for t.absolute absolute_lines
    ++ lines_for t.events events_lines
    ++ lines_for t.category category_lines
    ++ lines_for t.audit_token (λ ns. tokens "audit token" ns ∷ [])
    ++ lines_for t.security_token (λ ns. tokens "security token" ns ∷ [])
