-- ===== src/Testright.antt =====
-- 2-35/testright.c: asks for a right, which it defines first where the policy database does not have it.
pub mod Authorization
mod Tests
use mac_os_x_internal.Prelude.{ℕ, Bool, true, false, List, [], ◌∷◌, ◌++◌, if◌then◌else◌, ℤ, pos}
use mac_os_x_internal.Prelude.Ledger.{Ledger, acquire, release}

-- What a call of Authorization Services returns: `noErr`, `errAuthorizationDenied`, or another code.
pub data Result : Type 0 where
  no_err denied : Result
  failed : ℤ → Result

-- What the calls return.
pub record Calls : Type 0 where
  pub create : Result
  pub right_get : Result
  pub right_set : Result
  pub copy_rights : Result

pub data Message : Type 0 where
  failed_to_connect failed_to_set_up failed_to_check failed_to_acquire right_acquired : Message

-- The exit status: 0, or the code of a call.
pub data Status : Type 0 where
  success : Status
  code : Result → Status

-- The authorization reference.
abbrev pub auth_ref : ℕ
auth_ref = 0

-- The end of `main`: the right is asked for, and the reference freed.
unfoldable pub authorize : Result → Message × List Ledger
authorize no_err = (right_acquired, release auth_ref ∷ [])
authorize denied = (failed_to_acquire, release auth_ref ∷ [])
authorize (failed err) = (failed_to_acquire, release auth_ref ∷ [])

-- `main` from the authorization on, with the reference.
unfoldable pub finish : Result → Message × Status × Bool × List Ledger
finish copy_rights =
    let (message, events) = authorize copy_rights in
    (message, success, false, acquire auth_ref ∷ events)

-- `main`: its message, its exit status, whether it has defined the right, and the reference that it acquires and frees.
unfoldable pub main : Calls → Message × Status × Bool × List Ledger
main calls =
    let (message, status, defined, events) = finish calls.copy_rights in
    elim calls.create [
      | no_err ↦ elim calls.right_get [
        | no_err ↦ (message, status, false, events)
        | denied ↦ elim calls.right_set [
          | no_err ↦ (message, status, true, events)
          | denied ↦ (failed_to_set_up, code denied, false, acquire auth_ref ∷ [])
          | failed err ↦ (failed_to_set_up, code (failed err), false, acquire auth_ref ∷ [])
        ]
        | failed err ↦ (failed_to_check, code (failed err), false, acquire auth_ref ∷ [])
      ]
      | denied ↦ (failed_to_connect, code denied, false, [])
      | failed err ↦ (failed_to_connect, code (failed err), false, [])
    ]
