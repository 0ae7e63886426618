-- ===== src/Testright/Authorization.antt =====
-- 2-35/testright.c: when the right is acquired, and when the reference is freed.
use mac_os_x_internal.Prelude.{◌≡◌, ◌≢◌, ◌↔◌, ◌⊎◌, arith, [], ◌∷◌}
use mac_os_x_internal.Prelude.Ledger.{acquire, Settles, none_held}
use mac_os_x_internal.Testright.{
  Calls, no_err, denied, right_acquired, success, auth_ref, authorize, finish, main,
}

-- The right is or can be defined.
abbrev pub IsDefined : Calls → Type 0
IsDefined calls =
    (calls.right_get ≡ no_err) ⊎ ((calls.right_get ≡ denied) × (calls.right_set ≡ no_err))

-- `main` says that it has acquired the right exactly where the connection is made, the right is or can be defined, and the authorization
-- succeeds.
pub main-right_acquired :
    (calls : Calls)
    → ((main calls).0 ≡ right_acquired)
      ↔ ((calls.create ≡ no_err) × IsDefined calls × (calls.copy_rights ≡ no_err))
unfolding main finish authorize
main-right_acquired calls = (λ e. ground arith, λ h. ground arith)

-- Where the exit status is 0, which does not tell whether the right has been acquired, the reference has been freed.
pub main-Settles :
    (calls : Calls) → (main calls).1 ≡ success → Settles none_held (main calls).3 none_held
unfolding main finish authorize
main-Settles calls e = ground arith

-- Where the reference has been made and the right is not and cannot be defined, `main` ends without freeing it.
pub main-leaked :
    (calls : Calls)
    → calls.create ≡ no_err
    → (main calls).1 ≢ success
    → (main calls).3 ≡ acquire auth_ref ∷ []
unfolding main finish authorize
main-leaked calls connected fails = ground arith
