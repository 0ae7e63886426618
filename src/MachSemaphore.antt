-- ===== src/MachSemaphore.antt =====
-- 9-72/mach_semaphore.c: three threads that wait for a semaphore, and `main`, which signals one of them and then all. `sem[0]` is the semaphore that the threads
-- wait for; `sem[1]` counts their signals to `main`.
pub mod Ordering
mod Tests
use mac_os_x_internal.Prelude.{
  ◌++◌, ℕ, zero, suc, ◌+◌, ◌-◌, ◌≡◌, Bool, true, false, List, [], ◌∷◌, Option, none, some, ltb, leb,
  ◌==◌, if◌then◌else◌,
}
use mac_os_x_internal.Prelude.Ledger.{Ledger, acquire, release}

-- Where a thread is in `start_routine`: before its first signal, between it and the wait, waiting, past the wait, and past its second signal.
pub data Phase : Type 0 where
  starting : Phase
  signalled : Phase
  waiting : Phase
  woken : Phase
  done : Phase

-- Where `main` is: it waits for so many more threads to be ready; for the third thread; it is about to signal all; it waits for so many more threads; and
-- it is at `out`, with the semaphores destroyed.
pub data Main : Type 0 where
  readying : (left : ℕ) → Main
  third : Main
  about_all : Main
  resting : (left : ℕ) → Main
  over : Main

pub record State : Type 0 where
  pub main : Main
  pub thread1 : Phase
  pub thread2 : Phase
  pub thread3 : Phase
  pub sem1 : ℕ

-- The threads have been created; no semaphore has a count. `main` has three signals to wait for.
abbrev pub initial : State
initial = record {
  main = readying 3;
  thread1 = starting;
  thread2 = starting;
  thread3 = starting;
  sem1 = 0;
}

-- A signal on `sem[0]`, as it reaches a thread: it is woken if it waits, and otherwise the signal is lost.
unfoldable pub wake : Phase → Phase
wake starting = starting
wake signalled = signalled
wake waiting = woken
wake woken = woken
wake done = done

-- A step of `start_routine`, with what it adds to `sem[1]`; `none` where the thread cannot go on by itself.
unfoldable pub start_routine : Phase → Option (Phase × ℕ)
start_routine starting = some (signalled, 1)
start_routine signalled = some (waiting, 0)
start_routine waiting = none
start_routine woken = some (done, 1)
start_routine done = none

-- A step of `main`; `none` where it waits for `sem[1]`, and at its end.
unfoldable pub main_step : State → Option State
main_step s = elim s.main [
  | readying zero ↦ some (record s { main = third; thread3 = wake s.thread3 })
  | readying (suc left) ↦
      if ltb 0 s.sem1 then some (record s { main = readying left; sem1 = s.sem1 - 1 }) else none
  | third ↦ if ltb 0 s.sem1 then some (record s { main = about_all; sem1 = s.sem1 - 1 }) else none
  | about_all ↦ some (record s {
    main = resting 2;
    thread1 = wake s.thread1;
    thread2 = wake s.thread2;
    thread3 = wake s.thread3;
  })
  | resting zero ↦ some (record s { main = over })
  | resting (suc left) ↦
      if ltb 0 s.sem1 then some (record s { main = resting left; sem1 = s.sem1 - 1 }) else none
  | over ↦ none
]

-- A step of any of the four.
pub data Step (s : State) (t : State) : Type 0 where
  steps_main : main_step s ≡ some t → Step s t
  steps1 :
      (p : Phase) (n : ℕ)
      → start_routine s.thread1 ≡ some (p, n)
      → t ≡ record s { thread1 = p; sem1 = s.sem1 + n }
      → Step s t
  steps2 :
      (p : Phase) (n : ℕ)
      → start_routine s.thread2 ≡ some (p, n)
      → t ≡ record s { thread2 = p; sem1 = s.sem1 + n }
      → Step s t
  steps3 :
      (p : Phase) (n : ℕ)
      → start_routine s.thread3 ≡ some (p, n)
      → t ≡ record s { thread3 = p; sem1 = s.sem1 + n }
      → Step s t

pub data Reach (s : State) : State → Type 0 where
  here : Reach s s
  next : {t u : State} → Reach s t → Step t u → Reach s u

-- The semaphores of the kernel.
abbrev pub sem_threads : ℕ
sem_threads = 0

abbrev pub sem_main : ℕ
sem_main = 1

-- The label `out`: each semaphore that has been created is destroyed.
unfoldable pub out : (has_threads has_main : Bool) → List Ledger
out has_threads has_main =
    (if has_threads then release sem_threads ∷ [] else [])
    ++ (if has_main then release sem_main ∷ [] else [])

-- `main` around the steps: by the codes of the two `semaphore_create`, its exit status, and what it creates and destroys; `ends` tells whether the steps come
-- to their end.
unfoldable pub main : (create_threads create_main : ℕ) (ends : Bool) → Option ℕ × List Ledger
main create_threads create_main ends =
    if ltb 0 create_threads
    then (some create_threads, out false false)
    else if ltb 0 create_main
    then (some create_main, acquire sem_threads ∷ out true false)
    else if ends
    then (some 0, acquire sem_threads ∷ acquire sem_main ∷ out true true)
    else (none, acquire sem_threads ∷ acquire sem_main ∷ [])
