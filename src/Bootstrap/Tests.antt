-- ===== src/Bootstrap/Tests.antt =====
-- 9-16/bootstrap_server.c at concrete inputs.
use mac_os_x_internal.Prelude.{◌≡◌, refl, arith, true, [], ◌∷◌}
use mac_os_x_internal.Prelude.Ledger.{acquire, release, Settles, none_held}
use mac_os_x_internal.Bootstrap.{
  unknown_service, Bootstrap, unset, BootstrapRegister, exited, main, register_bootstrap_service,
  create, server_priv_right, service_send_right,
}
use mac_os_x_internal.Bootstrap.Rights.{left, register_bootstrap_service-Settles}

-- A service that is declared for the first time.
abbrev fresh : Bootstrap
fresh = record {
  check_in = unknown_service;
  create_server = 0;
  create_service = 0;
  check_in_again = 0;
}

-- The second check-in fails.
abbrev refused : Bootstrap
refused = record fresh { check_in_again = 1101 }

refused_rights :
    (register_bootstrap_service refused).2
    ≡ acquire server_priv_right
      ∷ acquire service_send_right
      ∷ release server_priv_right
      ∷ release service_send_right
      ∷ []
unfolding register_bootstrap_service create
refused_rights = refl

-- A port that is not set is no port: code 268435459.
abbrev unregister : BootstrapRegister
unregister port = elim port [ unset ↦ 268435459 | _ ↦ 0 ]

main_shuts : main unregister fresh true ≡ (exited 268435459, [])
unfolding main
main_shuts = refl

register_bootstrap_service-Settles_example :
    let (code, port, events) = register_bootstrap_service fresh in
    Settles none_held events (left code port)
register_bootstrap_service-Settles_example =
    register_bootstrap_service-Settles fresh (λ code e. ground arith)
