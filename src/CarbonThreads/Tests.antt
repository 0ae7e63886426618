-- ===== src/CarbonThreads/Tests.antt =====
-- 7-37/CarbonThreadManager.c at concrete inputs.
use mac_os_x_internal.Prelude.{ℕ, ◌≡◌, List, Option, some, refl, replicate}
use mac_os_x_internal.CarbonThreads.{maxthreads, create_threads}

abbrev all_created : List (Option ℕ)
all_created = replicate maxthreads (some 40)

all_created_lem : create_threads all_created ≡ replicate maxthreads 40
unfolding create_threads
all_created_lem = refl
