-- ===== src/ShmIpc/Tests.antt =====
-- 8-19/shm_ipc_server.c and 8-18/shm_ipc_client.c at concrete inputs.
use mac_os_x_internal.Prelude.{◌≡◌, refl, arith, [], ◌∷◌, none, some}
use mac_os_x_internal.ShmIpc.{greeting, shared, run_clients, strcpy, string_at}
use mac_os_x_internal.ShmIpc.Sharing.{run_clients-shared}

hello : string_at 16 0 shared ≡ some greeting
unfolding string_at shared strcpy
hello = refl

-- The second client finds the text of the first; its own, which is longer than the page, is cut.
run_clients-shared_example :
    run_clients 13 (some (65 ∷ 66 ∷ []) ∷ some (66 ∷ greeting) ∷ none ∷ []) shared
    ≡ (some greeting ∷ [])
      ∷ (some (65 ∷ 66 ∷ []) ∷ [])
      ∷ (some (66 ∷ 72 ∷ 101 ∷ 108 ∷ 108 ∷ 111 ∷ 44 ∷ 32 ∷ 77 ∷ 97 ∷ 99 ∷ 104 ∷ []) ∷ [])
      ∷ []
run_clients-shared_example =
    run_clients-shared 13 (some (65 ∷ 66 ∷ []) ∷ some (66 ∷ greeting) ∷ none ∷ []) (omega arith)
      (ground arith)
