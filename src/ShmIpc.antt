-- ===== src/ShmIpc.antt =====
-- 8-19/shm_ipc_server.c and 8-18/shm_ipc_client.c: a server that shares a page of its memory, and the clients that read and write it; both with
-- 8-17/shm_ipc_common.h.
pub mod Sharing
mod Tests
use mac_os_x_internal.Prelude.{
  ℕ, zero, suc, ◌+◌, ◌-◌, Bool, true, false, not, List, [], ◌∷◌, ◌++◌, Option, none, some, ltb, leb,
  ◌==◌, if◌then◌else◌, update,
}

-- `strcpy`: the bytes of a text and a zero behind them, from `i` on.
unfoldable pub strcpy : (text : List ℕ) (i : ℕ) → (ℕ → ℕ) → ℕ → ℕ
strcpy [] i memory = update memory i 0
strcpy (c ∷ text) i memory = strcpy text (i + 1) (update memory i c)

-- `strncpy` of `size` bytes: the text as far as it goes, then zeros.
unfoldable pub strncpy : (size : ℕ) (text : List ℕ) (i : ℕ) → (ℕ → ℕ) → ℕ → ℕ
strncpy zero text i memory = memory
strncpy (suc size) [] i memory = strncpy size [] (i + 1) (update memory i 0)
strncpy (suc size) (c ∷ text) i memory = strncpy size text (i + 1) (update memory i c)

-- What `%s` prints of memory from `i` on: the bytes before the first zero, `none` if there is none among the `size` bytes that are mapped.
unfoldable pub string_at : (size i : ℕ) → (ℕ → ℕ) → Option (List ℕ)
string_at zero i memory = none
string_at (suc size) i memory =
    let rest = string_at size (i + 1) memory in
    if memory i == 0
    then some []
    else elim rest [ none ↦ none | some text ↦ some (memory i ∷ text) ]

-- "Hello, Mach!"
abbrev pub greeting : List ℕ
greeting = 72 ∷ 101 ∷ 108 ∷ 108 ∷ 111 ∷ 44 ∷ 32 ∷ 77 ∷ 97 ∷ 99 ∷ 104 ∷ 33 ∷ []

-- The page as the server leaves it: new memory is zero.
unfoldable pub shared : ℕ → ℕ
shared = strcpy greeting 0 (λ k. 0)

-- What a client does with the page that it has mapped: what it prints, and the page after it. The text is its argument, if it has exactly one.
unfoldable pub use_page : (vm_page_size : ℕ) → Option (List ℕ) → (ℕ → ℕ) → Option (List ℕ) × (ℕ → ℕ)
use_page vm_page_size none memory = (string_at vm_page_size 0 memory, memory)
use_page vm_page_size (some text) memory = (
  string_at vm_page_size 0 memory,
  update (strncpy vm_page_size text 0 memory) (vm_page_size - 1) 0,
)

abbrev pub shm_msg_id : ℕ
shm_msg_id = 400

-- A reply: its id, and whether the page could be mapped by the handle in it.
pub record Reply : Type 0 where
  pub msgh_id : ℕ
  pub mapped : Bool

-- The client's loop over the replies, until one with the id of its request: the strings that it prints, the page, and whether it exits.
unfoldable pub client_loop :
    (vm_page_size : ℕ)
    → Option (List ℕ)
    → List Reply
    → (ℕ → ℕ)
    → List (Option (List ℕ)) × (ℕ → ℕ) × Bool
client_loop vm_page_size argument [] memory = ([], memory, false)
client_loop vm_page_size argument (recv ∷ replies) memory =
    let (printed, used) = use_page vm_page_size argument memory in
    let next = if recv.mapped then used else memory in
    let line = if recv.mapped then printed ∷ [] else [] in
    let (lines, last, exits) = client_loop vm_page_size argument replies next in
    if recv.msgh_id == shm_msg_id then (line, next, true) else (line ++ lines, last, exits)

-- What the client's calls return, 0 for success.
pub record ClientCalls : Type 0 where
  pub look_up : ℕ
  pub allocate : ℕ
  pub send : ℕ

-- The client's `main`: what it prints, the page after it, and its status when it exits.
unfoldable pub client_main :
    ClientCalls
    → (vm_page_size : ℕ) → Option (List ℕ)
    → List Reply
    → (ℕ → ℕ)
    → List (Option (List ℕ)) × (ℕ → ℕ) × Option ℕ
client_main calls vm_page_size argument replies memory =
    let (lines, last, exits) = client_loop vm_page_size argument replies memory in
    if ltb 0 calls.look_up
    then ([], memory, some calls.look_up)
    else if ltb 0 calls.allocate
    then ([], memory, some calls.allocate)
    else if ltb 0 calls.send
    then ([], memory, some calls.send)
    else (lines, last, if exits then some 0 else none)

-- What the server gets from `mach_msg`: a request, by its port for the reply and its id, with the code that sending the reply will give; or the code of a
-- failure, which is not 0.
pub data Received : Type 0 where
  request : (remote_port msgh_id send_kr : ℕ) → Received
  failed : (kr : ℕ) → Received

-- The server's loop: the replies with the handle, by their port and id, and its status if it exits.
unfoldable pub server_loop : List Received → List (ℕ × ℕ) × Option ℕ
server_loop [] = ([], none)
server_loop (failed kr ∷ messages) = ([], some kr)
server_loop (request remote_port msgh_id send_kr ∷ messages) =
    let (replies, status) = server_loop messages in
    if ltb 0 send_kr then ([], some send_kr) else ((remote_port, msgh_id) ∷ replies, status)

-- What the server's calls return before its loop.
pub record ServerCalls : Type 0 where
  pub allocate : ℕ
  pub make_entry : ℕ
  pub create_service : ℕ
  pub check_in : ℕ

-- The server's `main`: the page that it shares, if it comes so far, its replies, and its status if it exits.
unfoldable pub server_main : ServerCalls → List Received → Option (ℕ → ℕ) × List (ℕ × ℕ) × Option ℕ
server_main calls messages =
    let (replies, status) = server_loop messages in
    if ltb 0 calls.allocate
    then (none, [], some calls.allocate)
    else if ltb 0 calls.make_entry
    then (none, [], some calls.make_entry)
    else if ltb 0 calls.create_service
    then (some shared, [], some calls.create_service)
    else if ltb 0 calls.check_in
    then (some shared, [], some calls.check_in)
    else (some shared, replies, status)

-- No call of a client fails.
abbrev pub all_well : ClientCalls
all_well = record { look_up = 0; allocate = 0; send = 0 }

-- Clients that run one after the other, each with its argument, and each with one reply to its request, whose handle it can map.
unfoldable pub run_clients :
    (vm_page_size : ℕ) → List (Option (List ℕ)) → (ℕ → ℕ) → List (List (Option (List ℕ)))
run_clients vm_page_size [] memory = []
run_clients vm_page_size (argument ∷ arguments) memory =
    let (lines, next, status) =
      client_main all_well vm_page_size argument
        (record { msgh_id = shm_msg_id; mapped = true } ∷ []) memory in
    lines ∷ run_clients vm_page_size arguments next
