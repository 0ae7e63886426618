-- ===== src/SimpleIpc.antt =====
-- 9-20/simple_ipc_server.c and 9-21/simple_ipc_client.c: a server that answers with a factorial, and its client; both with 9-19/simple_ipc_common.h.
pub mod Exchange
mod Tests
use mac_os_x_internal.Prelude.{
  ℕ, zero, suc, ◌+◌, ◌-◌, ◌*◌, ◌^◌, Bool, true, false, not, ◌&&◌, List, [], ◌∷◌, ◌++◌, Option, none,
  some, ltb, leb, ◌==◌, if◌then◌else◌, ℤ, pos, negsuc, ◌⊎◌, inl, inr,
}
use mac_os_x_internal.Prelude.Products.{as_int}

-- `factorial` on a number that is not negative, and on any `int`.
unfoldable pub factorial_of : ℕ → Option ℕ
factorial_of zero = some 1
factorial_of (suc n) = elim (factorial_of n) [ none ↦ none | some rest ↦ as_int (suc n * rest) ]

unfoldable pub factorial : ℤ → Option ℕ
factorial (pos n) = factorial_of n
factorial (negsuc n) = some 1

-- A request as its sender fills it in.
pub record Request : Type 0 where
  pub remote_port : ℕ
  pub local_port : ℕ
  pub msgh_id : ℕ
  pub number : ℤ

-- A reply; its number is `none` where the product has overflowed.
pub record Reply : Type 0 where
  pub remote_port : ℕ
  pub msgh_id : ℕ
  pub number : Option ℕ

abbrev pub default_msg_id : ℕ
default_msg_id = 400

-- What the server gets from `mach_msg`: a request, with the code that sending its reply will give, or the code of a failure to receive.
pub data Received : Type 0 where
  request : Request → (send_kr : ℕ) → Received
  failed : (kr : ℕ) → Received

-- The reply to a request. In the header that is received, the remote port is the port to reply to.
abbrev pub reply_to : Request → Reply
reply_to recv = record {
  remote_port = recv.remote_port;
  msgh_id = recv.msgh_id;
  number = factorial recv.number;
}

-- The server's loop: the replies that it has sent, and the status that it exits with, if it does. The codes of failures are not 0.
unfoldable pub server_loop : List Received → List Reply × Option ℕ
server_loop [] = ([], none)
server_loop (failed kr ∷ messages) = ([], some kr)
server_loop (request recv send_kr ∷ messages) =
    let (replies, status) = server_loop messages in
    if ltb 0 send_kr then ([], some send_kr) else (reply_to recv ∷ replies, status)

-- The server's `main`, with the codes of its two calls to become a server.
unfoldable pub server_main : (create_service check_in : ℕ) → List Received → List Reply × Option ℕ
server_main create_service check_in messages =
    if ltb 0 create_service
    then ([], some create_service)
    else if ltb 0 check_in
    then ([], some check_in)
    else server_loop messages

-- The number that the client asks for; the argument is what `atoi` gives, if there is exactly one.
abbrev pub asked_for : Option ℤ → ℕ
asked_for none = 1
asked_for (some (negsuc n)) = 1
asked_for (some (pos n)) = if ltb n 1 then 1 else if ltb 20 n then 1 else n

-- The client's request.
abbrev pub client_request : (server_port client_port : ℕ) → Option ℤ → Request
client_request server_port client_port argument = record {
  remote_port = server_port;
  local_port = client_port;
  msgh_id = default_msg_id;
  number = pos (asked_for argument);
}

-- The client's loop: what it prints of the replies that it receives, and its status when it exits; a number is the code of a failure to
-- receive.
unfoldable pub client_loop : List (Reply ⊎ ℕ) → List (Option ℕ) × Option ℕ
client_loop [] = ([], none)
client_loop (inr kr ∷ replies) = ([], some kr)
client_loop (inl recv ∷ replies) =
    let (printed, status) = client_loop replies in
    if recv.msgh_id == default_msg_id
    then (recv.number ∷ [], some 0)
    else (recv.number ∷ printed, status)

-- What the client's calls return: the server's port and its own, each or its code, and the code of sending.
pub record ClientCalls : Type 0 where
  pub look_up : ℕ
  pub allocate : ℕ
  pub send : ℕ

-- The client's `main`: the request that it sends, if it comes so far, what it prints, and its status.
unfoldable pub client_main :
    ClientCalls
    → (server_port client_port : ℕ) → Option ℤ
    → List (Reply ⊎ ℕ)
    → Option Request × List (Option ℕ) × Option ℕ
client_main calls server_port client_port argument replies =
    let (printed, status) = client_loop replies in
    if ltb 0 calls.look_up
    then (none, [], some calls.look_up)
    else if ltb 0 calls.allocate
    then (none, [], some calls.allocate)
    else if ltb 0 calls.send
    then (none, [], some calls.send)
    else (some (client_request server_port client_port argument), printed, status)
