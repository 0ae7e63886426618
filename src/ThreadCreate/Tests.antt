-- ===== src/ThreadCreate/Tests.antt =====
-- 7-20/thread_create.c at concrete inputs.
use mac_os_x_internal.Prelude.{◌≡◌, refl, []}
use mac_os_x_internal.ThreadCreate.{Layout, Calls, PpcThreadState, exits, main, my_thread_setup}

abbrev state : PpcThreadState
state = record { srr0 = 0; r1 = 0; r3 = 0; r4 = 0; lr = 0; others = λ r. 0 }

abbrev layout : Layout
layout = record {
  my_thread_routine = 0x2b00;
  my_thread_exit = 0x2b40;
  hello_mach = 0x2f00;
  thread_stack = 0x3000;
  page_size = 4096;
  c_argsave_len = 32;
  c_red_zone = 224;
}

-- The thread cannot be resumed.
abbrev stuck : Calls
stuck = record { create = 0; get_state = 0; set_state = 0; resume = 5; state = state }

stuck_lem : main layout stuck ≡ ([], exits 5)
unfolding main my_thread_setup
stuck_lem = refl
