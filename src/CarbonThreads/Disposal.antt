-- ===== src/CarbonThreads/Disposal.antt =====
-- 7-37/CarbonThreadManager.c: which threads run, and which are disposed of.
use mac_os_x_internal.Prelude.{ℕ, ◌≤◌, ◌≡◌, ◌≢◌, List, [], ◌∷◌, Option, some, arith, refl, length}
use mac_os_x_internal.Prelude.Ledger.{Settles, Settles-same, Settles-append, none_held, more, less}
use mac_os_x_internal.CarbonThreads.{
  maxthreads, behind_array, thread_at, thread_function, run_threads, create_threads,
  dispose_threads, acquired, main,
}

-- How often each id is held after the threads have been created.
count : List ℕ → (ℕ → ℕ) → ℕ → ℕ
count [] held = held
count (id ∷ ids) held = count ids (more held id)

count-more :
    (ids : List ℕ) (held : ℕ → ℕ) (id r : ℕ)
    → count ids (more held id) r ≡ more (count ids held) id r
unfolding count
count-more [] held id r = refl
count-more (x ∷ ids) held id r =
    let outer = count-more ids (more held id) x r in
    let inner = count-more ids held id r in
    let other = count-more ids held x r in ground (arith, outer, inner, other)

acquired-Settles : (ids : List ℕ) (held : ℕ → ℕ) → Settles held (acquired ids) (count ids held)
unfolding acquired count
acquired-Settles [] held = λ r. refl
acquired-Settles (id ∷ ids) held = acquired-Settles ids (more held id)

dispose_threads-Settles :
    (ids : List ℕ) (held : ℕ → ℕ) → Settles (count ids held) (dispose_threads ids) held
unfolding dispose_threads count
dispose_threads-Settles [] held = λ r. refl
dispose_threads-Settles (id ∷ ids) held =
    let same : (r : ℕ) → less (count ids (more held id)) id r ≡ count ids held r =
      λ r. (let swapped = count-more ids held id r in ground (arith, swapped)) in
    let some_held : 1 ≤ count ids (more held id) id =
      (let swapped = count-more ids held id id in ground (arith, swapped)) in
    (
      some_held,
      Settles-same (less (count ids (more held id)) id) (count ids held) held (dispose_threads ids)
          same (dispose_threads-Settles ids held),
    )

-- Where a thread cannot be created, `main` disposes of each thread that it has created once.
pub main-Settles :
    (created : List (Option ℕ))
    → length (create_threads created) ≢ maxthreads
    → Settles none_held (main created).2 none_held
unfolding main
main-Settles created some_failed =
    let ids = create_threads created in
    let both =
      Settles-append none_held (count ids none_held) none_held (acquired ids) (dispose_threads ids)
        (acquired-Settles ids none_held) (dispose_threads-Settles ids none_held) in
    ground (arith, both)

-- Where all threads are created, each of them runs once, in the order of their creation, and the last one yields to what lies behind
-- the array `newThreads`: `main` does not run again.
pub main-behind_array :
    (created : List (Option ℕ))
    → length (create_threads created) ≡ maxthreads
    → ((main created).0 ≡ 0 ∷ 1 ∷ 2 ∷ 3 ∷ 4 ∷ 5 ∷ 6 ∷ 7 ∷ [])
      × ((main created).1 ≡ some behind_array)
unfolding main run_threads thread_function thread_at
main-behind_array created all = ground arith
