-- ===== src/MachSemaphore/Tests.antt =====
-- 9-72/mach_semaphore.c at concrete inputs.
use mac_os_x_internal.Prelude.{◌≡◌, refl}
use mac_os_x_internal.MachSemaphore.{
  signalled, waiting, woken, done, third, resting, over, State, initial, wake, start_routine,
  main_step, steps_main, steps1, steps2, steps3, Reach, here, next,
}
use mac_os_x_internal.MachSemaphore.Ordering.{Reach-over}

-- All three have signalled that they are ready, and then wait.
abbrev ready : State
ready = record initial { thread1 = signalled; thread2 = signalled; thread3 = signalled; sem1 = 3 }

abbrev settled : State
settled = record ready { thread1 = waiting; thread2 = waiting; thread3 = waiting }

ready-Reach : Reach initial ready
unfolding start_routine
ready-Reach =
    next (next (next here (steps1 signalled 1 refl refl)) (steps2 signalled 1 refl refl))
      (steps3 signalled 1 refl refl)

settled-Reach : Reach initial settled
unfolding start_routine
settled-Reach =
    next (next (next ready-Reach (steps1 waiting 0 refl refl)) (steps2 waiting 0 refl refl))
      (steps3 waiting 0 refl refl)

-- The third thread has been signalled.
abbrev chosen : State
chosen = record settled { main = third; thread3 = woken; sem1 = 0 }

chosen-Reach : Reach initial chosen
unfolding main_step wake
chosen-Reach =
    next (next (next (next settled-Reach (steps_main refl)) (steps_main refl)) (steps_main refl))
      (steps_main refl)

-- Then all have.
abbrev freed : State
freed = record chosen {
  main = resting 2;
  thread1 = woken;
  thread2 = woken;
  thread3 = done;
  sem1 = 0;
}

freed-Reach : Reach initial freed
unfolding main_step wake start_routine
freed-Reach =
    next (next (next chosen-Reach (steps3 done 1 refl refl)) (steps_main refl)) (steps_main refl)

abbrev ended : State
ended = record freed { main = over; thread1 = done; thread2 = done }

ended-Reach : Reach initial ended
unfolding main_step wake start_routine
ended-Reach =
    next
      (next
        (next (next (next freed-Reach (steps1 done 1 refl refl)) (steps2 done 1 refl refl))
          (steps_main refl))
        (steps_main refl))
      (steps_main refl)

Reach-over_example :
    (ended.thread1 ≡ done) × (ended.thread2 ≡ done) × (ended.thread3 ≡ done) × (ended.sem1 ≡ 0)
Reach-over_example = Reach-over ended-Reach refl

-- `main` signals the third thread before it waits.
abbrev missed : State
missed = record ready { main = third; sem1 = 0 }

missed-Reach : Reach initial missed
unfolding main_step wake
missed-Reach =
    next (next (next (next ready-Reach (steps_main refl)) (steps_main refl)) (steps_main refl))
      (steps_main refl)
