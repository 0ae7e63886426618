-- ===== src/Bootstrap/Rights.antt =====
-- 9-16/bootstrap_server.c: the rights that the registration holds at its end, and the codes that it returns.
use mac_os_x_internal.Prelude.{
  ℕ, ◌≡◌, ◌≢◌, ◌<◌, refl, arith, true, false, [], ◌==◌, if◌then◌else◌, inl, inr, ◌↔◌, ◌⊎◌,
}
use mac_os_x_internal.Prelude.Ledger.{Settles, none_held, only}
use mac_os_x_internal.Bootstrap.{
  CheckIn, checked_in, unknown_service, failed, Bootstrap, ServerPort, unset, bootstrap_port,
  own_port, server_priv_right, create, register_bootstrap_service, BootstrapRegister, exited,
  serving, main,
}

-- The rights left: with a server of its own, if all went well, the right to it.
abbrev pub kept : ServerPort → ℕ → ℕ
kept unset r = 0
kept bootstrap_port r = 0
kept own_port r = only server_priv_right r

abbrev pub left : (code : ℕ) → ServerPort → ℕ → ℕ
left code port r = if code == 0 then kept port r else 0

CheckIn-cases :
    (c : CheckIn) → (c ≡ checked_in) ⊎ ((c ≡ unknown_service) ⊎ ((code : ℕ) × (c ≡ failed code)))
CheckIn-cases checked_in = inl refl
CheckIn-cases unknown_service = inr (inl refl)
CheckIn-cases (failed code) = inr (inr (code, refl))

-- Unless the first check-in fails for another reason than an unknown service, the registration releases each right while it holds it, and
-- at its end it holds no right if it fails or has found its service, and only the right to its server if it has created the service.
pub register_bootstrap_service-Settles :
    (b : Bootstrap)
    → ((code : ℕ) → b.check_in ≢ failed code)
    → let (code, port, events) = register_bootstrap_service b in
      Settles none_held events (left code port)
unfolding register_bootstrap_service create
register_bootstrap_service-Settles b known = elim (CheckIn-cases b.check_in) [
  | inl found ↦ ground arith
  | inr (inl unknown) ↦ ground arith
  | inr (inr (code, broken)) ↦ absurd (known code broken)
]

-- Where the first check-in fails for another reason, the registration destroys the receive right that the check-in has not given.
pub register_bootstrap_service-failed :
    (b : Bootstrap) (code : ℕ)
    → b.check_in ≡ failed code
    → ¬ Settles none_held (register_bootstrap_service b).2 none_held
unfolding register_bootstrap_service
register_bootstrap_service-failed b code e = ground arith

-- The process stays in its loop, unless it shuts down, exactly if the first check-in succeeds, or the service is unknown and it is created,
-- with the server, and checked in.
pub main_serving :
    (bootstrap_register : BootstrapRegister) (b : Bootstrap)
    → ((code : ℕ) → b.check_in ≡ failed code → 0 < code)
    → ((main bootstrap_register b false).0 ≡ serving) ↔ (
        (b.check_in ≡ checked_in)
        ⊎ ((b.check_in ≡ unknown_service)
            × (b.create_server ≡ 0)
            × (b.create_service ≡ 0)
            × (b.check_in_again ≡ 0)))
unfolding main register_bootstrap_service create
main_serving bootstrap_register b coded = elim (CheckIn-cases b.check_in) [
  | inl found ↦ ground arith
  | inr (inl unknown) ↦ ground arith
  | inr (inr (code, broken)) ↦ ground (arith, coded code broken)
]

-- A run to shut down asks with a port that no run has set, and whatever the answer, it releases and acquires nothing; the process exits where
-- the request fails and stays where it succeeds.
pub main_shutdown :
    (bootstrap_register : BootstrapRegister) (b : Bootstrap)
    → main bootstrap_register b true
      ≡ ((if 0 == bootstrap_register unset then serving else exited (bootstrap_register unset)), [])
unfolding main
main_shutdown bootstrap_register b = ground arith
