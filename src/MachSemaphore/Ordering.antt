-- ===== src/MachSemaphore/Ordering.antt =====
-- 9-72/mach_semaphore.c: in which order the threads succeed, and how the program can hang.
use mac_os_x_internal.Prelude.{none, Bool, ℕ, ◌+◌, ◌-◌, ◌≡◌, ◌≢◌, ◌≤◌, refl, arith, some, ◌⊎◌}
use mac_os_x_internal.Prelude.Ledger.{Settles, none_held}
use mac_os_x_internal.MachSemaphore.{
  main, out, Phase, starting, signalled, waiting, woken, done, Main, readying, third, about_all,
  resting, over, State, initial, wake, start_routine, main_step, Step, steps_main, steps1, steps2,
  steps3, Reach, here, next,
}

-- How often a thread has signalled `main`, and how often `main` has waited for a signal.
pub signals : Phase → ℕ
signals starting = 0
signals signalled = 1
signals waiting = 1
signals woken = 1
signals done = 2

abbrev pub waits : Main → ℕ
waits (readying left) = 3 - left
waits third = 3
waits about_all = 4
waits (resting left) = 6 - left
waits over = 6

-- A thread that has not got past its wait.
pub IsHeld : Phase → Type 0
IsHeld p = (p ≢ woken) × (p ≢ done)

-- `main` has not yet signalled all threads.
abbrev pub IsEarly : Main → Type 0
IsEarly (readying left) = Unit
IsEarly third = Unit
IsEarly about_all = Unit
IsEarly (resting left) = ⊥
IsEarly over = ⊥

-- `main` has got past its wait for the third thread.
abbrev pub IsLate : Main → Type 0
IsLate (readying left) = ⊥
IsLate third = ⊥
IsLate about_all = Unit
IsLate (resting left) = Unit
IsLate over = Unit

abbrev pub IsBounded : Main → Type 0
IsBounded (readying left) = left ≤ 3
IsBounded third = Unit
IsBounded about_all = Unit
IsBounded (resting left) = left ≤ 2
IsBounded over = Unit

-- The signals of the threads are those that `main` has waited for and those that it will still find; and until `main` signals all threads, the
-- first two are held; the third is done once `main` has waited for it.
pub record IsCounted (s : State) : Type 0 where
  pub counted : s.sem1 + waits s.main ≡ signals s.thread1 + (signals s.thread2 + signals s.thread3)
  pub bounded : IsBounded s.main
  pub held : IsEarly s.main → IsHeld s.thread1 × IsHeld s.thread2
  pub first : IsLate s.main → s.thread3 ≡ done

signals-wake : (p : Phase) → signals (wake p) ≡ signals p
unfolding signals wake
signals-wake p = ground arith

start_routine-signals :
    (p q : Phase) (n : ℕ) → start_routine p ≡ some (q, n) → signals q ≡ signals p + n
unfolding signals start_routine
start_routine-signals p q n e = ground arith

start_routine-IsHeld : (p q : Phase) (n : ℕ) → start_routine p ≡ some (q, n) → IsHeld p → IsHeld q
unfolding IsHeld start_routine
start_routine-IsHeld p q n e held = ground arith

start_routine-done : (p q : Phase) (n : ℕ) → start_routine p ≡ some (q, n) → p ≢ done
unfolding start_routine
start_routine-done p q n e = ground arith

wake-done : wake done ≡ done
unfolding wake
wake-done = refl

signals_at_most : (p : Phase) → signals p ≤ 2
unfolding signals
signals_at_most p = ground arith

signals-IsHeld : (p : Phase) → IsHeld p → signals p ≤ 1
unfolding signals IsHeld
signals-IsHeld p held = ground arith

signals_two : (p : Phase) → 2 ≤ signals p → p ≡ done
unfolding signals
signals_two p e = ground arith

main_step-IsCounted : {s t : State} → main_step s ≡ some t → IsCounted s → IsCounted t
unfolding main_step
main_step-IsCounted {s} {t} e c = ground (
  arith,
  signals-wake s.thread1,
  signals-wake s.thread2,
  signals-wake s.thread3,
  wake-done,
  signals-IsHeld s.thread1,
  signals-IsHeld s.thread2,
  signals_two s.thread3,
)

Step-IsCounted : {s t : State} → Step s t → IsCounted s → IsCounted t
Step-IsCounted (steps_main e) c = main_step-IsCounted e c
Step-IsCounted {s} (steps1 p n e e') c =
    ground (arith, start_routine-signals s.thread1 p n e, start_routine-IsHeld s.thread1 p n e)
Step-IsCounted {s} (steps2 p n e e') c =
    ground (arith, start_routine-signals s.thread2 p n e, start_routine-IsHeld s.thread2 p n e)
Step-IsCounted {s} (steps3 p n e e') c =
    ground (arith, start_routine-signals s.thread3 p n e, start_routine-done s.thread3 p n e)

initial-IsCounted : IsCounted initial
unfolding signals IsHeld
initial-IsCounted = ground arith

Reach-IsCounted : {s : State} → Reach initial s → IsCounted s
Reach-IsCounted here = initial-IsCounted
Reach-IsCounted (next r step) = Step-IsCounted step (Reach-IsCounted r)

-- In any order of the steps: when `main` is at its end, where it destroys the semaphores, each thread has got past its wait and has signalled twice, and no
-- signal is left over.
pub Reach-over :
    {s : State}
    → Reach initial s
    → s.main ≡ over
    → (s.thread1 ≡ done) × (s.thread2 ≡ done) × (s.thread3 ≡ done) × (s.sem1 ≡ 0)
Reach-over {s} r at =
    let c = Reach-IsCounted r in
    ground (
      arith,
      signals_two s.thread1,
      signals_two s.thread2,
      signals_two s.thread3,
      signals_at_most s.thread1,
      signals_at_most s.thread2,
      signals_at_most s.thread3,
      c.counted,
    )

-- In any order of the steps the third thread is the first to get past its wait and to be done: until it is done, neither of the other two is past its wait.
pub Reach-first :
    {s : State}
    → Reach initial s
    → s.thread3 ≢ done
    → (s.thread1 ≢ woken) × (s.thread1 ≢ done) × (s.thread2 ≢ woken) × (s.thread2 ≢ done)
unfolding IsHeld
Reach-first {s} r waiting_yet = let c = Reach-IsCounted r in ground (arith, c.held, c.first)

-- A thread that has signalled `main` but has not been woken.
abbrev pub IsAsleep : Phase → Type 0
IsAsleep p = (p ≡ signalled) ⊎ (p ≡ waiting)

-- `main` has signalled the third thread, which was not waiting yet, and all signals of the threads have been waited for.
pub record IsMissed (s : State) : Type 0 where
  pub main : s.main ≡ third
  pub none_left : s.sem1 ≡ 0
  pub asleep1 : IsAsleep s.thread1
  pub asleep2 : IsAsleep s.thread2
  pub asleep3 : IsAsleep s.thread3

Step-IsMissed : {s t : State} → Step s t → IsMissed s → IsMissed t
unfolding main_step start_routine
Step-IsMissed (steps_main e) m = ground arith
Step-IsMissed (steps1 p n e e') m = ground arith
Step-IsMissed (steps2 p n e e') m = ground arith
Step-IsMissed (steps3 p n e e') m = ground arith

-- Once `main` has signalled the third thread before that thread waits, and has used up the signals of the threads, the program hangs for ever: in whatever order
-- it goes on, `main` keeps waiting for the third thread.
pub Reach-IsMissed : {s t : State} → IsMissed s → Reach s t → IsMissed t
Reach-IsMissed m here = m
Reach-IsMissed m (next r step) = Step-IsMissed step (Reach-IsMissed m r)

-- Whatever call fails, each semaphore that has been created is destroyed when `main` exits, and none that has not.
pub main-Settles :
    (create_threads create_main : ℕ) (ends : Bool)
    → (main create_threads create_main ends).0 ≢ none
    → Settles none_held (main create_threads create_main ends).1 none_held
unfolding main out
main-Settles create_threads create_main ends exits = ground arith
