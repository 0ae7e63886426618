-- ===== src/SimpleIpc/Tests.antt =====
-- 9-20/simple_ipc_server.c and 9-21/simple_ipc_client.c at concrete inputs.
use mac_os_x_internal.Prelude.{◌≡◌, refl, arith, [], ◌∷◌, none, some, pos}
use mac_os_x_internal.Prelude.Products.{product_to}
use mac_os_x_internal.SimpleIpc.{
  factorial, factorial_of, Request, failed, server_loop, client_request, client_main,
}
use mac_os_x_internal.SimpleIpc.Exchange.{
  arriving, delivered_to, Carries, all_well, client_main-answered,
}

five : factorial (pos 5) ≡ some 120
unfolding factorial factorial_of
five = refl

thirteen : factorial (pos 13) ≡ none
unfolding factorial factorial_of
thirteen = refl

-- The server stops at a failure to receive.
stopped : server_loop (failed 268451843 ∷ []) ≡ ([], some 268451843)
unfolding server_loop
stopped = refl

-- The kernel puts the local port of the sender into the remote port.
abbrev carry : Request → Request
carry r = record r { remote_port = r.local_port; local_port = r.remote_port }

carry-Carries : Carries carry
carry-Carries r = (refl, refl, refl)

-- A request from the port 70, before that of the client, whose port is 80; the server's is 60.
abbrev stranger : Request
stranger = record { remote_port = 70; local_port = 60; msgh_id = 1; number = pos 3 }

client_main-answered_example :
    client_main all_well 60 80 (some (pos 5)) (
      delivered_to 80
        (server_loop
          (arriving (stranger ∷ carry (client_request 60 80 (some (pos 5))) ∷ stranger ∷ []))).0)
    ≡ (some (client_request 60 80 (some (pos 5))), some (product_to 5) ∷ [], some 0)
client_main-answered_example =
    client_main-answered carry carry-Carries (stranger ∷ []) (stranger ∷ []) 60 80 (some (pos 5))
      (omega arith, tt) (omega arith)
