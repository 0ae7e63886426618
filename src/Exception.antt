-- ===== src/Exception.antt =====
-- 9-38/exception.c: a thread that faults, and the thread of the same task that catches its exception and sends it elsewhere.
pub mod Repair
mod Tests
use mac_os_x_internal.Prelude.{
  ℕ, zero, suc, ◌+◌, ◌-◌, Bool, true, false, not, List, [], ◌∷◌, ◌++◌, ltb, leb, ◌==◌,
  if◌then◌else◌, ℤ, pos, negsuc, update,
}
use mac_os_x_internal.Prelude.Ledger.{Ledger, acquire, release}

-- The three architectures that the source is compiled for; the last two are treated alike but for the saved state.
pub data Arch : Type 0 where
  powerpc x86_64 aarch64 : Arch

-- The types of exceptions; `other` with its number.
pub data Exception : Type 0 where
  bad_access bad_instruction : Exception
  other : ℕ → Exception

-- The exception that the ports are set for, and that the catch routine takes.
unfoldable pub is_expected : Arch → Exception → Bool
is_expected powerpc bad_instruction = true
is_expected powerpc bad_access = false
is_expected powerpc (other n) = false
is_expected x86_64 bad_instruction = false
is_expected x86_64 bad_access = true
is_expected x86_64 (other n) = false
is_expected aarch64 bad_instruction = false
is_expected aarch64 bad_access = true
is_expected aarch64 (other n) = false

-- The saved state of a thread: where it goes on (`srr0`, `__rip` or the pc), and its other registers.
pub record ThreadState : Type 0 where
  pub pc : ℕ
  pub register : ℕ → ℕ

-- The states of the threads, by their ports.
abbrev pub Threads : Type 0
Threads = ℕ → ThreadState

-- What the calls of the system return, 0 for success, by the name of the call.
pub record Kernel : Type 0 where
  pub mach_port_allocate : ℕ
  pub mach_port_insert_right : ℕ
  pub thread_set_exception_ports : ℕ
  pub pthread_create : ℕ
  pub mach_msg_receive : ℕ
  pub thread_get_state : ℕ
  pub thread_set_state : ℕ
  pub mach_msg_send : ℕ

-- The message of an exception, as far as the program reads it.
pub record ExcMsg : Type 0 where
  pub thread : ℕ
  pub exception : Exception

-- How a routine ends: it returns a code, or the process exits.
pub data Ended : Type 0 where
  returned : ℕ → Ended
  exited : ℤ → Ended

-- The codes, 0 and 5.
abbrev pub kern_success : ℕ
kern_success = 0

abbrev pub kern_failure : ℕ
kern_failure = 5

-- `repair_instruction`; `graceful_dead` is the address of that function. Each failed call exits with its code.
unfoldable pub repair_instruction : Kernel → (graceful_dead victim : ℕ) → Threads → Threads × Ended
repair_instruction k graceful_dead victim threads =
    let state = record (threads victim) { pc = graceful_dead } in
    if ltb 0 k.thread_get_state
    then (threads, exited (pos k.thread_get_state))
    else if ltb 0 k.thread_set_state
    then (threads, exited (pos k.thread_set_state))
    else (update threads victim state, returned kern_success)

-- `catch_exception_raise` and `catch_mach_exception_raise`.
unfoldable pub catch_exception_raise :
    Arch → Kernel → (graceful_dead : ℕ) → ExcMsg → Threads → Threads × Ended
catch_exception_raise arch k graceful_dead msg threads =
    let repaired = repair_instruction k graceful_dead msg.thread threads in
    if not (is_expected arch msg.exception) then (threads, exited (negsuc 0)) else repaired

-- `catch_mach_exception_raise_state` and `catch_mach_exception_raise_state_identity`.
abbrev pub catch_mach_exception_raise_state : ExcMsg → Threads → Threads × Ended
catch_mach_exception_raise_state msg threads = (threads, returned kern_failure)

-- `exc_server` and `mach_exc_server`, which MIG generates, are given the catch routine that they call.
abbrev pub ExcServer : Type 0
ExcServer = (ExcMsg → Threads → Threads × Ended) → ExcMsg → Threads → Threads × Ended

-- The rights of the process: the port of its thread, of which it holds a reference for each right to it that it is given; the receive right to the
-- exception port, and the send right to it; the port of the task.
abbrev pub mythread_right : ℕ
mythread_right = 0

abbrev pub receive_right : ℕ
receive_right = 1

abbrev pub send_right : ℕ
send_right = 2

abbrev pub task_right : ℕ
task_right = 3

-- The rights that the message of an exception brings: to the thread, which is the one of `main`, and to its task.
abbrev pub received : List Ledger
received = acquire mythread_right ∷ acquire task_right ∷ []

-- `exception_handler`: what it replies with, or how the process exits, and the rights it is given. Neither it nor the catch routine
-- gives them back.
unfoldable pub exception_handler :
    Arch
    → Kernel
    → ExcServer
    → (graceful_dead : ℕ) → ExcMsg
    → Threads
    → Threads × Ended × List Ledger
exception_handler arch k exc_server graceful_dead msg_recv threads =
    let (threads', ended) =
      exc_server (catch_exception_raise arch k graceful_dead) msg_recv threads in
    if ltb 0 k.mach_msg_receive
    then (threads, exited (pos k.mach_msg_receive), [])
    else elim ended [
      | exited status ↦ (threads', exited status, received)
      | returned code ↦
          if ltb 0 k.mach_msg_send
          then (threads', exited (pos k.mach_msg_send), received)
          else (threads', returned code, received)
    ]

-- The label `out`. `mach_port_deallocate` gives back a send right, never a receive right.
abbrev pub out : List Ledger
out = release mythread_right ∷ release send_right ∷ []

-- What becomes of the process: it returns from `main`, exits, or is ended by the kernel since its exception was not handled.
pub data Outcome : Type 0 where
  finished : Outcome
  left : ℤ → Outcome
  killed : Outcome

-- From the call of the bad instruction on, which raises `exception` in the thread `mythread`. After the reply `KERN_SUCCESS` the thread goes on
-- where its state says; `graceful_dead` returns to `main`.
unfoldable pub call_bad_instruction :
    Arch
    → Kernel
    → ExcServer
    → (graceful_dead mythread : ℕ) → Exception
    → Threads
    → Threads × Outcome × List Ledger
call_bad_instruction arch k exc_server graceful_dead mythread exception threads =
    let (threads', ended, given) =
      exception_handler arch k exc_server graceful_dead
        (record { thread = mythread; exception = exception }) threads in
    elim ended [
      | exited status ↦ (threads', left status, given)
      | returned code ↦
          if code == kern_success
          then (threads', finished, given ++ out)
          else (threads', killed, given)
    ]

-- `main`.
unfoldable pub main :
    Arch
    → Kernel
    → ExcServer
    → (graceful_dead mythread : ℕ) → Exception
    → Threads
    → Threads × Outcome × List Ledger
main arch k exc_server graceful_dead mythread exception threads =
    let (threads', outcome, events) =
      call_bad_instruction arch k exc_server graceful_dead mythread exception threads in
    if ltb 0 k.mach_port_allocate
    then (threads, left (pos k.mach_port_allocate), acquire mythread_right ∷ [])
    else if ltb 0 k.mach_port_insert_right
    then (threads, finished, acquire mythread_right ∷ acquire receive_right ∷ out)
    else if ltb 0 k.thread_set_exception_ports
    then (
      threads,
      finished,
      acquire mythread_right ∷ acquire receive_right ∷ acquire send_right ∷ out,
    )
    else if ltb 0 k.pthread_create
    then (
      threads,
      finished,
      acquire mythread_right ∷ acquire receive_right ∷ acquire send_right ∷ out,
    )
    else (
      threads',
      outcome,
      acquire mythread_right ∷ acquire receive_right ∷ acquire send_right ∷ events,
    )
