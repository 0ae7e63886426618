-- ===== src/SimpleIpc/Exchange.antt =====
-- 9-20/simple_ipc_server.c and 9-21/simple_ipc_client.c: the server and a client together.
use mac_os_x_internal.Prelude.{
  ℕ, zero, suc, ◌+◌, ◌-◌, ◌≤◌, ◌<◌, ◌≡◌, ◌≢◌, refl, arith, ◌∙◌, List, [], ◌∷◌, ◌++◌, Option, none,
  some, ◌==◌, if◌then◌else◌, ℤ, pos, negsuc, ◌⊎◌, inl, map, All,
}
use mathlib.Core.List.{map-append}
use mac_os_x_internal.Prelude.Products.{product_to, product_to_small, product_to_thirteen}
use mac_os_x_internal.SimpleIpc.{
  factorial_of, factorial, Request, Reply, Received, request, reply_to, server_loop, asked_for,
  client_request, client_loop, ClientCalls, client_main,
}

factorial_of_small : (n : ℕ) → n ≤ 12 → factorial_of n ≡ some (product_to n)
unfolding factorial_of product_to
factorial_of_small zero small = refl
factorial_of_small (suc n) small =
    ground (arith, factorial_of_small n (omega arith), product_to_small (suc n) small)

factorial_of_large : (n : ℕ) → factorial_of (n + 13) ≡ none
unfolding factorial_of product_to
factorial_of_large zero = ground (arith, factorial_of_small 12 (omega arith), product_to_thirteen)
factorial_of_large (suc n) =
    let moved : suc n + 13 ≡ suc (n + 13) = omega arith in
    rw moved (ground (arith, factorial_of_large n))

large_lem : (n : ℕ) → 12 < n → factorial (pos n) ≡ none
unfolding factorial
large_lem n large = let e : n ≡ (n - 13) + 13 = omega arith in rw e (factorial_of_large (n - 13))

-- All requests arrive and all replies can be sent.
abbrev pub arriving : List Request → List Received
arriving requests = map (λ r. request r 0) requests

server_loop_replies :
    (requests : List Request) → server_loop (arriving requests) ≡ (map reply_to requests, none)
unfolding server_loop
server_loop_replies [] = refl
server_loop_replies (r ∷ requests) = rw (server_loop_replies requests)

-- What a client receives on its port: the replies to it, in order.
abbrev pub delivered_to : ℕ → List Reply → List (Reply ⊎ ℕ)
delivered_to port [] = []
delivered_to port (r ∷ replies) =
    if r.remote_port == port then inl r ∷ delivered_to port replies else delivered_to port replies

others_pass :
    (port : ℕ) (requests : List Request) (rest : List Reply)
    → All (λ r. r.remote_port ≢ port) requests
    → delivered_to port (map reply_to requests ++ rest) ≡ delivered_to port rest
others_pass port [] rest others = refl
others_pass port (r ∷ requests) rest (other, others) =
    ground (arith, others_pass port requests rest others)

only_delivered :
    (port : ℕ) (before later : List Request) (r : Request)
    → All (λ r. r.remote_port ≢ port) before
    → r.remote_port ≡ port
    → delivered_to port (server_loop (arriving (before ++ r ∷ later))).0
      ≡ inl (reply_to r) ∷ delivered_to port (map reply_to later)
only_delivered port before later r others same =
    rw (server_loop_replies (before ++ r ∷ later), map-append reply_to before (r ∷ later))
      (others_pass port before (reply_to r ∷ map reply_to later) others ∙ ground arith)

-- The kernel carries a message as it is, and its receiver finds the port to reply to, which the sender calls its local port, in the remote port.
abbrev pub Carries : (Request → Request) → Type 0
Carries carry =
    (r : Request)
    → ((carry r).remote_port ≡ r.local_port)
      × ((carry r).msgh_id ≡ r.msgh_id)
      × ((carry r).number ≡ r.number)

-- No call of the client fails.
abbrev pub all_well : ClientCalls
all_well = record { look_up = 0; allocate = 0; send = 0 }

asked_at_most : (argument : Option ℤ) → asked_for argument ≤ 20
asked_at_most none = omega arith
asked_at_most (some (negsuc n)) = omega arith
asked_at_most (some (pos n)) = ground arith

module _ (carry : Request → Request) (carries : Carries carry) (before later : List Request)
    (server_port client_port : ℕ) (argument : Option ℤ) where
  -- The requests that the server receives, the client's among those of others.
  abbrev pub received : List Request
  received = before ++ carry (client_request server_port client_port argument) ∷ later

  client_hears :
      (answer : Option ℕ)
      → All (λ r. r.remote_port ≢ client_port) before
      → factorial (pos (asked_for argument)) ≡ answer
      → client_main all_well server_port client_port argument
          (delivered_to client_port (server_loop (arriving received)).0)
        ≡ (some (client_request server_port client_port argument), answer ∷ [], some 0)
  unfolding client_main client_loop
  client_hears answer others e =
      let r = carry (client_request server_port client_port argument) in
      let (port, id, number) = carries (client_request server_port client_port argument) in
      rw (only_delivered client_port before later r others port) (ground (arith, id, number, e))

  -- A client that asks for a factorial up to 12, as it does for 1 where its argument is missing or not from 1 to 20, prints the product and exits with
  -- status 0, whatever requests of others the server answers before and after, where no call fails and none of those before is from the client's port.
  pub client_main-answered :
      All (λ r. r.remote_port ≢ client_port) before
      → asked_for argument ≤ 12
      → client_main all_well server_port client_port argument
          (delivered_to client_port (server_loop (arriving received)).0)
        ≡ (
          some (client_request server_port client_port argument),
          some (product_to (asked_for argument)) ∷ [],
          some 0,
        )
  unfolding factorial
  client_main-answered others small =
      client_hears (some (product_to (asked_for argument))) others
        (factorial_of_small (asked_for argument) small)

  -- A client that asks for a factorial from 13 to 20, which its own test lets pass, gets an answer all the same, but the product has overflowed on the server.
  pub client_main-overflowed :
      All (λ r. r.remote_port ≢ client_port) before
      → 12 < asked_for argument
      → client_main all_well server_port client_port argument
          (delivered_to client_port (server_loop (arriving received)).0)
        ≡ (some (client_request server_port client_port argument), none ∷ [], some 0)
  unfolding factorial
  client_main-overflowed others large =
      client_hears none others (large_lem (asked_for argument) large)
