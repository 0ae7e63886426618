-- ===== src/Bootstrap.antt =====
-- 9-16/bootstrap_server.c: a daemon that declares its service to the bootstrap server, or takes the service back.
pub mod Rights
mod Tests
use mac_os_x_internal.Prelude.{
  ℕ, zero, suc, ◌+◌, ◌-◌, Bool, true, false, not, List, [], ◌∷◌, ◌++◌, Option, none, some, ltb, leb,
  ◌==◌, if◌then◌else◌,
}
use mac_os_x_internal.Prelude.Ledger.{Ledger, acquire, release}

-- The rights of the process: to the server, to send to the service and to receive from it.
abbrev pub server_priv_right : ℕ
server_priv_right = 0

abbrev pub service_send_right : ℕ
service_send_right = 1

abbrev pub service_rcv_right : ℕ
service_rcv_right = 2

-- The answer of a check-in; `failed` has any other code, which is not 0.
pub data CheckIn : Type 0 where
  checked_in unknown_service : CheckIn
  failed : (code : ℕ) → CheckIn

-- What the bootstrap server answers: to the first check-in, and with codes to the two requests to create and to the second check-in.
pub record Bootstrap : Type 0 where
  pub check_in : CheckIn
  pub create_server : ℕ
  pub create_service : ℕ
  pub check_in_again : ℕ

-- Which port `server_priv_port` names: none yet, the bootstrap port, or one of its own.
pub data ServerPort : Type 0 where
  unset bootstrap_port own_port : ServerPort

-- The branch for a service that does not exist: the code that it returns, or `none` if it goes on.
unfoldable pub create : Bootstrap → Option ℕ × ServerPort × List Ledger
create b =
    if ltb 0 b.create_server
    then (some b.create_server, unset, [])
    else if ltb 0 b.create_service
    then (
      some b.create_service,
      own_port,
      acquire server_priv_right ∷ release server_priv_right ∷ [],
    )
    else if ltb 0 b.check_in_again
    then (
      some b.check_in_again,
      own_port,
      acquire server_priv_right
          ∷ acquire service_send_right
          ∷ release server_priv_right
          ∷ release service_send_right
          ∷ [],
    )
    else (
      none,
      own_port,
      acquire server_priv_right ∷ acquire service_send_right ∷ acquire service_rcv_right ∷ [],
    )

-- `mach_port_destroy` of the service's port. The right to send to a port and the right to receive from it have one name in a task, so both are
-- given back.
abbrev pub destroy_service : (has_send : Bool) → List Ledger
destroy_service has_send =
    if has_send
    then release service_send_right ∷ release service_rcv_right ∷ []
    else release service_rcv_right ∷ []

-- `register_bootstrap_service`: its code, the port and the rights.
unfoldable pub register_bootstrap_service : Bootstrap → ℕ × ServerPort × List Ledger
register_bootstrap_service b =
    let (returned, port, events) = create b in
    elim b.check_in [
      | checked_in ↦ (0, bootstrap_port, acquire service_rcv_right ∷ destroy_service false)
      | failed code ↦ (code, unset, destroy_service false)
      | unknown_service ↦ elim returned [
        | some code ↦ (code, port, events)
        | none ↦ (0, port, events ++ destroy_service true)
      ]
    ]

-- `bootstrap_register` with no port, on the server that a port names; its code.
abbrev pub BootstrapRegister : Type 0
BootstrapRegister = ServerPort → ℕ

-- `unregister_bootstrap_service`.
abbrev pub unregister_bootstrap_service : BootstrapRegister → ServerPort → ℕ
unregister_bootstrap_service bootstrap_register server_priv_port =
    bootstrap_register server_priv_port

-- What becomes of the process: it exits with a code, or stays in its loop.
pub data Outcome : Type 0 where
  exited : ℕ → Outcome
  serving : Outcome

-- `main`; `shutdown` tells whether the shutdown file is there. The process has set no port before.
unfoldable pub main : BootstrapRegister → Bootstrap → (shutdown : Bool) → Outcome × List Ledger
main bootstrap_register b shutdown =
    let (registered, port, events) = register_bootstrap_service b in
    let unregistered = unregister_bootstrap_service bootstrap_register unset in
    if shutdown
    then ((if ltb 0 unregistered then exited unregistered else serving), [])
    else ((if ltb 0 registered then exited registered else serving), events)
