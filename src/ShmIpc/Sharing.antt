-- ===== src/ShmIpc/Sharing.antt =====
-- 8-19/shm_ipc_server.c and 8-18/shm_ipc_client.c: what each client finds in the shared page.
use mac_os_x_internal.Prelude.{
  ℕ, zero, suc, ◌+◌, ◌-◌, ◌≡◌, ◌≢◌, ◌≤◌, ◌<◌, refl, arith, ◌∙◌, ap, true, List, [], ◌∷◌, Option,
  none, some, length, map, All, update,
}
use mac_os_x_internal.ShmIpc.{
  strcpy, strncpy, string_at, greeting, shared, use_page, shm_msg_id, client_loop, client_main,
  all_well, run_clients,
}

-- Memory holds a text from `i` on, and a zero behind it.
abbrev pub Holds : List ℕ → ℕ → (ℕ → ℕ) → Type 0
Holds [] i memory = memory i ≡ 0
Holds (c ∷ text) i memory = (memory i ≡ c) × (c ≢ 0) × Holds text (i + 1) memory

-- The first `n` bytes of a text.
abbrev pub take : ℕ → List ℕ → List ℕ
take zero text = []
take (suc n) [] = []
take (suc n) (c ∷ text) = c ∷ take n text

-- A text has no zero byte.
abbrev pub IsText : List ℕ → Type 0
IsText text = All (λ c. c ≢ 0) text

length-take : (n : ℕ) (text : List ℕ) → length (take n text) ≤ n
length-take zero text = omega arith
length-take (suc n) [] = omega arith
length-take (suc n) (c ∷ text) = omega (arith, length-take n text)

string_at-Holds :
    (size i : ℕ) (text : List ℕ) (memory : ℕ → ℕ)
    → Holds text i memory
    → length text < size
    → string_at size i memory ≡ some text
unfolding string_at
string_at-Holds zero i text memory holds fits = absurd (omega (arith, fits))
string_at-Holds (suc size) i [] memory holds fits = ground arith
string_at-Holds (suc size) i (c ∷ text) memory (here, plain, holds) fits =
    ground (arith, string_at-Holds size (i + 1) text memory holds (omega (arith, fits)))

strncpy_below :
    (size i k : ℕ) (text : List ℕ) (memory : ℕ → ℕ)
    → k < i
    → strncpy size text i memory k ≡ memory k
unfolding strncpy
strncpy_below zero i k text memory below = refl
strncpy_below (suc size) i k [] memory below =
    strncpy_below size (i + 1) k [] (update memory i 0) (omega arith) ∙ ground arith
strncpy_below (suc size) i k (c ∷ text) memory below =
    strncpy_below size (i + 1) k text (update memory i c) (omega arith) ∙ ground arith

-- The page after a text is written at `i`, with a zero at the end of the page, `n` bytes on.
abbrev pub page_after : (n i : ℕ) → List ℕ → (ℕ → ℕ) → ℕ → ℕ
page_after n i text memory = update (strncpy (suc n) text i memory) (i + n) 0

page_after-Holds :
    (n i : ℕ) (text : List ℕ) (memory : ℕ → ℕ)
    → IsText text
    → Holds (take n text) i (page_after n i text memory)
unfolding strncpy
page_after-Holds zero i text memory plain = ground arith
page_after-Holds (suc n) i [] memory plain =
    ground (arith, strncpy_below (suc n) (i + 1) i [] (update memory i 0) (omega arith))
page_after-Holds (suc n) i (c ∷ text) memory (p, plain) =
    let moved : i + suc n ≡ i + 1 + n = omega arith in
    (
      ground (arith, strncpy_below (suc n) (i + 1) i text (update memory i c) (omega arith)),
      p,
      rw moved (page_after-Holds n (i + 1) text (update memory i c) plain),
    )

-- What clients with these arguments find in the page, one after the other, where it holds a text at first.
abbrev pub found : (n : ℕ) → List ℕ → List (Option (List ℕ)) → List (List ℕ)
found n text [] = []
found n text (none ∷ arguments) = text ∷ found n text arguments
found n text (some written ∷ arguments) = text ∷ found n (take n written) arguments

-- Every argument is a text.
abbrev pub AreTexts : List (Option (List ℕ)) → Type 0
AreTexts [] = Unit
AreTexts (none ∷ arguments) = AreTexts arguments
AreTexts (some text ∷ arguments) = IsText text × AreTexts arguments

client_reads :
    (size : ℕ) (argument : Option (List ℕ)) (text : List ℕ) (memory : ℕ → ℕ)
    → Holds text 0 memory
    → length text < size
    → client_main all_well size argument
        (record { msgh_id = shm_msg_id; mapped = true } ∷ [])
        memory
      ≡ (some text ∷ [], (use_page size argument memory).1, some 0)
unfolding client_main client_loop use_page
client_reads size none text memory holds fits = rw (string_at-Holds size 0 text memory holds fits)
client_reads size (some written) text memory holds fits =
    rw (string_at-Holds size 0 text memory holds fits)

reads_only : (size : ℕ) (memory : ℕ → ℕ) → (use_page size none memory).1 ≡ memory
unfolding use_page
reads_only size memory = refl

written_page :
    (n : ℕ) (written : List ℕ) (memory : ℕ → ℕ)
    → (use_page (suc n) (some written) memory).1 ≡ page_after n 0 written memory
unfolding use_page
written_page n written memory =
    let last : suc n - 1 ≡ 0 + n = omega arith in
    ap (λ (k : ℕ). update (strncpy (suc n) written 0 memory) k 0) last

run_clients-found :
    (n : ℕ) (arguments : List (Option (List ℕ))) (text : List ℕ) (memory : ℕ → ℕ)
    → Holds text 0 memory
    → length text ≤ n
    → AreTexts arguments
    → run_clients (suc n) arguments memory ≡ map (λ t. some t ∷ []) (found n text arguments)
unfolding run_clients
run_clients-found n [] text memory holds fits plain = refl
run_clients-found n (none ∷ arguments) text memory holds fits plain =
    rw
      (client_reads (suc n) none text memory holds (omega (arith, fits)), reads_only (suc n) memory)
      (ap (λ (rest : List (List (Option (List ℕ)))). (some text ∷ []) ∷ rest)
        (run_clients-found n arguments text memory holds fits plain))
run_clients-found n (some written ∷ arguments) text memory holds fits (p, plain) =
    rw
      (
        client_reads (suc n) (some written) text memory holds (omega (arith, fits)),
        written_page n written memory,
      )
      (ap (λ (rest : List (List (Option (List ℕ)))). (some text ∷ []) ∷ rest)
        (run_clients-found n arguments (take n written) (page_after n 0 written memory)
          (page_after-Holds n 0 written memory p) (length-take n written) plain))

shared-Holds : Holds greeting 0 shared
unfolding shared strcpy
shared-Holds = ground arith

-- Clients that run one after the other on the server's page each print exactly the text that they find there: the first finds "Hello, Mach!", and each
-- later one what the last client with an argument has written, cut to the page less one byte; a client without an argument leaves the text as it is.
-- This holds for a page of more than 12 bytes and arguments without a zero byte, where each client can map the page.
pub run_clients-shared :
    (vm_page_size : ℕ) (arguments : List (Option (List ℕ)))
    → 12 < vm_page_size
    → AreTexts arguments
    → run_clients vm_page_size arguments shared
      ≡ map (λ t. some t ∷ []) (found (vm_page_size - 1) greeting arguments)
run_clients-shared zero arguments fits plain = absurd (omega arith)
run_clients-shared (suc n) arguments fits plain =
    let size : suc n - 1 ≡ n = omega arith in
    rw size (run_clients-found n arguments greeting shared shared-Holds (omega arith) plain)
