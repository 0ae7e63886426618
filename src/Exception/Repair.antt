-- ===== src/Exception/Repair.antt =====
-- 9-38/exception.c: what becomes of the faulting thread and of the process.
use mac_os_x_internal.Prelude.{ℕ, ◌<◌, ◌≡◌, ◌≢◌, arith, true, false, ◌∷◌, ◌++◌, negsuc, update}
use mac_os_x_internal.Prelude.Ledger.{acquire, Settles, none_held, only, more}
use mac_os_x_internal.Exception.{
  Arch, Exception, is_expected, Threads, Kernel, ExcMsg, Ended, returned, exited, kern_success,
  repair_instruction, catch_exception_raise, mythread_right, out, ExcServer, exception_handler,
  send_right, receive_right, task_right, received, finished, left, call_bad_instruction, main,
}

-- The server part that MIG generates calls the catch routine with what the message says, and answers with what it returns.
abbrev pub Serves : ExcServer → Type 0
Serves exc_server =
    (catch : ExcMsg → Threads → Threads × Ended) (msg : ExcMsg) (threads : Threads)
    → exc_server catch msg threads ≡ catch msg threads

-- No call of the system fails.
abbrev pub AllSucceed : Kernel → Type 0
AllSucceed k =
    (k.mach_port_allocate ≡ 0)
    × (k.mach_port_insert_right ≡ 0)
    × (k.thread_set_exception_ports ≡ 0)
    × (k.pthread_create ≡ 0)
    × (k.mach_msg_receive ≡ 0)
    × (k.thread_get_state ≡ 0)
    × (k.thread_set_state ≡ 0)
    × (k.mach_msg_send ≡ 0)

-- The rights that a repaired run leaves, each once.
abbrev pub rights_left : ℕ → ℕ
rights_left = more (more (only receive_right) mythread_right) task_right

module _ (arch : Arch) (k : Kernel) (exc_server : ExcServer) (graceful_dead mythread : ℕ)
    (serves : Serves exc_server) where
  caught :
      (msg : ExcMsg) (threads : Threads)
      → AllSucceed k
      → is_expected arch msg.exception ≡ true
      → catch_exception_raise arch k graceful_dead msg threads ≡ (
        update threads msg.thread (record (threads msg.thread) { pc = graceful_dead }),
        returned kern_success,
      )
  unfolding catch_exception_raise repair_instruction
  caught msg threads (_, _, _, _, _, get, set, _) expected = rw (get, set, expected)

  handled :
      (msg : ExcMsg) (threads : Threads)
      → AllSucceed k
      → is_expected arch msg.exception ≡ true
      → exception_handler arch k exc_server graceful_dead msg threads ≡ (
        update threads msg.thread (record (threads msg.thread) { pc = graceful_dead }),
        returned kern_success,
        received,
      )
  unfolding exception_handler
  handled msg threads succeed expected = ground (
    arith,
    serves (catch_exception_raise arch k graceful_dead) msg threads,
    caught msg threads succeed expected,
  )

  called :
      (exception : Exception) (threads : Threads)
      → AllSucceed k
      → is_expected arch exception ≡ true
      → call_bad_instruction arch k exc_server graceful_dead mythread exception threads ≡ (
        update threads mythread (record (threads mythread) { pc = graceful_dead }),
        finished,
        received ++ out,
      )
  unfolding call_bad_instruction
  called exception threads succeed expected = ground (
    arith,
    handled (record { thread = mythread; exception = exception }) threads succeed expected,
  )

  main_lem :
      (exception : Exception) (threads : Threads)
      → AllSucceed k
      → is_expected arch exception ≡ true
      → main arch k exc_server graceful_dead mythread exception threads ≡ (
        update threads mythread (record (threads mythread) { pc = graceful_dead }),
        finished,
        acquire mythread_right ∷ acquire receive_right ∷ acquire send_right ∷ received ++ out,
      )
  unfolding main
  main_lem exception threads succeed expected =
      ground (arith, called exception threads succeed expected)

  -- Where all calls succeed and the bad call raises the exception that the architecture's ports are set for, `main` returns; its thread has
  -- gone on at `graceful_dead` with its other registers as they were, no other thread is changed, and the rights that are left are the
  -- receive right to the exception port and the two that the message of the exception brought, to the thread and to the task.
  pub main-finished :
      (exception : Exception) (threads : Threads)
      → AllSucceed k
      → is_expected arch exception ≡ true
      → let (threads', outcome, events) =
          main arch k exc_server graceful_dead mythread exception threads in
        (outcome ≡ finished)
        × (threads' mythread ≡ record (threads mythread) { pc = graceful_dead })
        × ((t : ℕ) → t ≢ mythread → threads' t ≡ threads t)
        × Settles none_held events rights_left
  main-finished exception threads succeed expected =
      let e = main_lem exception threads succeed expected in ground (arith, e)

  uncaught :
      (msg : ExcMsg) (threads : Threads)
      → is_expected arch msg.exception ≡ false
      → catch_exception_raise arch k graceful_dead msg threads ≡ (threads, exited (negsuc 0))
  unfolding catch_exception_raise
  uncaught msg threads unexpected = rw unexpected

  unhandled :
      (msg : ExcMsg) (threads : Threads)
      → AllSucceed k
      → is_expected arch msg.exception ≡ false
      → exception_handler arch k exc_server graceful_dead msg threads
        ≡ (threads, exited (negsuc 0), received)
  unfolding exception_handler
  unhandled msg threads succeed unexpected = ground (
    arith,
    serves (catch_exception_raise arch k graceful_dead) msg threads,
    uncaught msg threads unexpected,
  )

  unexpected_lem :
      (exception : Exception) (threads : Threads)
      → AllSucceed k
      → is_expected arch exception ≡ false
      → main arch k exc_server graceful_dead mythread exception threads ≡ (
        threads,
        left (negsuc 0),
        acquire mythread_right ∷ acquire receive_right ∷ acquire send_right ∷ received,
      )
  unfolding main call_bad_instruction
  unexpected_lem exception threads succeed unexpected = ground (
    arith,
    unhandled (record { thread = mythread; exception = exception }) threads succeed unexpected,
  )

  -- An exception that the ports are not set for, but that is raised through them all the same, ends the process with status -1 and changes no
  -- thread, where no call before the catch routine fails.
  pub main-unexpected :
      (exception : Exception) (threads : Threads)
      → AllSucceed k
      → is_expected arch exception ≡ false
      → let (threads', outcome, events) =
          main arch k exc_server graceful_dead mythread exception threads in
        (outcome ≡ left (negsuc 0)) × (threads' ≡ threads)
  main-unexpected exception threads succeed unexpected =
      let e = unexpected_lem exception threads succeed unexpected in ground (arith, e)

-- Where `main` gets as far as the bad call and returns, its thread goes on at `graceful_dead` and not at the bad call, whatever the later
-- calls answer and whatever exception is raised: otherwise the process has ended.
pub main_never_retries :
    (arch : Arch) (k : Kernel) (exc_server : ExcServer) (graceful_dead mythread : ℕ)
    (exception : Exception) (threads : Threads)
    → Serves exc_server
    → k.mach_port_insert_right ≡ 0
    → k.thread_set_exception_ports ≡ 0
    → k.pthread_create ≡ 0
    → (main arch k exc_server graceful_dead mythread exception threads).1 ≡ finished
    → ((main arch k exc_server graceful_dead mythread exception threads).0 mythread).pc
      ≡ graceful_dead
unfolding main call_bad_instruction exception_handler catch_exception_raise repair_instruction
main_never_retries arch k exc_server graceful_dead mythread exception threads serves insert ports
      create e =
    ground (
      arith,
      serves (catch_exception_raise arch k graceful_dead)
          (record { thread = mythread; exception = exception }) threads,
    )

-- Where the send right cannot be made, the program gives back a send right that it does not have.
pub main-insert_failed :
    (arch : Arch) (k : Kernel) (exc_server : ExcServer) (graceful_dead mythread : ℕ)
    (exception : Exception) (threads : Threads)
    → k.mach_port_allocate ≡ 0
    → 0 < k.mach_port_insert_right
    → ¬ Settles none_held
        (main arch k exc_server graceful_dead mythread exception threads).2
        (only receive_right)
unfolding main
main-insert_failed arch k exc_server graceful_dead mythread exception threads e more' = ground arith
