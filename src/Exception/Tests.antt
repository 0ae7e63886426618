-- ===== src/Exception/Tests.antt =====
-- 9-38/exception.c at concrete inputs.
use mac_os_x_internal.Prelude.{ℕ, ◌≡◌, ◌≢◌, refl}
use mac_os_x_internal.Prelude.Ledger.{Settles, none_held}
use mac_os_x_internal.Exception.{
  powerpc, bad_instruction, is_expected, Threads, Kernel, ExcServer, finished, main,
}
use mac_os_x_internal.Exception.Repair.{Serves, AllSucceed, rights_left, main-finished}

abbrev ready : Kernel
ready = record {
  mach_port_allocate = 0;
  mach_port_insert_right = 0;
  thread_set_exception_ports = 0;
  pthread_create = 0;
  mach_msg_receive = 0;
  thread_get_state = 0;
  thread_set_state = 0;
  mach_msg_send = 0;
}

-- Each thread is at the address 4096, with zeros in its registers.
abbrev resting : Threads
resting t = record { pc = 4096; register = λ r. 0 }

abbrev direct : ExcServer
direct catch msg threads = catch msg threads

direct-Serves : Serves direct
direct-Serves catch msg threads = refl

ready-AllSucceed : AllSucceed ready
ready-AllSucceed = (refl, refl, refl, refl, refl, refl, refl, refl)

main-finished_example :
    let (threads, outcome, events) = main powerpc ready direct 9000 2 bad_instruction resting in
    (outcome ≡ finished)
    × (threads 2 ≡ record (resting 2) { pc = 9000 })
    × ((t : ℕ) → t ≢ 2 → threads t ≡ resting t)
    × Settles none_held events rights_left
unfolding is_expected
main-finished_example =
    main-finished powerpc ready direct 9000 2 direct-Serves bad_instruction resting ready-AllSucceed
      refl
