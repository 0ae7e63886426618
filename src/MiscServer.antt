-- ===== src/MiscServer.antt =====
-- 9-28/server.c: the operations that the MIG server exports, and how it is set up.
pub mod Operations
mod Tests
use mac_os_x_internal.Prelude.{
  ℕ, zero, suc, ◌+◌, ◌-◌, ◌*◌, ◌^◌, Bool, true, false, not, List, [], ◌∷◌, Option, none, some, ltb,
  leb, ◌==◌, if◌then◌else◌, ℤ, pos, negsuc,
}
use mac_os_x_internal.Prelude.Products.{as_int}
use mac_os_x_internal.Prelude.Ledger.{Ledger, acquire, release}

-- `KERN_SUCCESS` with a result, or `KERN_INVALID_ADDRESS`.
pub data Reply : Type 0 where
  success : ℕ → Reply
  invalid_address : Reply

-- The loop of `string_length` over the bytes from `in` on; `none` where it reads past the end of the string's bytes.
unfoldable pub count_bytes : List ℕ → ℕ → Option ℕ
count_bytes [] len = none
count_bytes (c ∷ bytes) len =
    let rest = count_bytes bytes (len + 1) in if c == 0 then some len else rest

-- `string_length`; either pointer may be null.
unfoldable pub string_length : Option (List ℕ) → (has_len : Bool) → Option Reply
string_length none has_len = some invalid_address
string_length (some bytes) has_len =
    if not has_len
    then some invalid_address
    else elim (count_bytes bytes 0) [ none ↦ none | some len ↦ some (success len) ]

-- The loop of `factorial` from `i` on; `rounds` is `num - i + 1`.
unfoldable pub factorial_loop : (rounds i fac : ℕ) → Option ℕ
factorial_loop zero i fac = some fac
factorial_loop (suc rounds) i fac = elim (as_int (fac * i)) [
  | none ↦ none
  | some fac' ↦ elim (as_int (i + 1)) [ none ↦ none | some i' ↦ factorial_loop rounds i' fac' ]
]

-- `factorial`, `none` where an `int` overflows.
unfoldable pub factorial : ℤ → (has_fac : Bool) → Option Reply
factorial num has_fac = if not has_fac then some invalid_address else elim num [
  | pos n ↦ elim (factorial_loop (n - 1) 2 1) [ none ↦ none | some fac ↦ some (success fac) ]
  | negsuc n ↦ some (success 1)
]

-- The send right to the service, resource 0, and its receive right, 1.
-- `server_setup`: its exit status if it exits, and the rights that it acquires and releases.
unfoldable pub server_setup : (created checked_in : Bool) → Option ℕ × List Ledger
server_setup created checked_in =
    if not created
    then (some 1, [])
    else if not checked_in
    then (some 1, acquire 0 ∷ release 0 ∷ [])
    else (none, acquire 0 ∷ acquire 1 ∷ [])
