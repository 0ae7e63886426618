-- ===== src/CarbonThreads.antt =====
-- 7-37/CarbonThreadManager.c: cooperative threads that hand the processor to each other.
pub mod Disposal
mod Tests
use mac_os_x_internal.Prelude.{
  ℕ, zero, suc, ◌+◌, ◌-◌, List, [], ◌∷◌, ◌++◌, Option, none, some, ◌==◌, leb, if◌then◌else◌,
  get_elem?, length,
}
use mac_os_x_internal.Prelude.Ledger.{Ledger, acquire, release}

abbrev pub maxthreads : ℕ
maxthreads = 8

-- To whom a thread yields: to `main`, to a thread, or to what lies behind the array.
pub data Yield : Type 0 where
  to_main : Yield
  to_thread : (i : ℕ) → Yield
  behind_array : Yield

-- The element of `newThreads` that is read.
unfoldable pub thread_at : ℕ → Yield
thread_at i = if leb maxthreads i then behind_array else to_thread i

-- The end of `threadFunction`, for the parameter `i`.
unfoldable pub thread_function : ℕ → Yield
thread_function i = if i == maxthreads then to_main else thread_at (i + 1)

-- The threads that print their line, from a first one on, and where the last of them goes.
unfoldable pub run_threads : (fuel : ℕ) → Yield → List ℕ × Yield
run_threads zero yield = ([], yield)
run_threads (suc fuel) to_main = ([], to_main)
run_threads (suc fuel) behind_array = ([], behind_array)
run_threads (suc fuel) (to_thread i) =
    let (later, end) = run_threads fuel (thread_function i) in (i ∷ later, end)

-- The loop of `main` that creates the threads from `i` on: `created` are the answers of `NewThread`, the id of the new thread or a failure. It gives
-- the ids that `newThreads` then holds.
unfoldable pub create_threads : List (Option ℕ) → List ℕ
create_threads [] = []
create_threads (none ∷ created) = []
create_threads (some id ∷ created) = id ∷ create_threads created

-- The label `out`: each thread that is in the array is disposed of.
unfoldable pub dispose_threads : List ℕ → List Ledger
dispose_threads [] = []
dispose_threads (id ∷ ids) = release id ∷ dispose_threads ids

unfoldable pub acquired : List ℕ → List Ledger
acquired [] = []
acquired (id ∷ ids) = acquire id ∷ acquired ids

-- What `main` does: the threads that run, where the last of them goes (none if `main` goes to `out` without yielding), and the threads that it creates and disposes of.
unfoldable pub main : List (Option ℕ) → List ℕ × Option Yield × List Ledger
main created =
    let ids = create_threads created in
    let (ran, end) = run_threads maxthreads (thread_at 0) in
    if length ids == maxthreads
    then elim end [
      | to_main ↦ (ran, some to_main, acquired ids ++ dispose_threads ids)
      | to_thread i ↦ (ran, some (to_thread i), acquired ids)
      | behind_array ↦ (ran, some behind_array, acquired ids)
    ]
    else ([], none, acquired ids ++ dispose_threads ids)
