-- ===== src/Lsmacaddr.antt =====
-- 10-33/lsmacaddr.c: prints the addresses of the Ethernet controllers.
pub mod Digits
pub mod Objects
mod Tests
use mac_os_x_internal.Prelude.{
  ℕ, ◌+◌, ◌/◌, ◌%◌, Bool, List, [], ◌∷◌, ◌++◌, Option, none, some, ltb, if◌then◌else◌,
}
use mac_os_x_internal.Prelude.Ledger.{Ledger, acquire, release}

-- A printed character: a hexadecimal digit, a colon or the end of the line.
pub data Char : Type 0 where
  digit : ℕ → Char
  colon newline : Char

-- `%02x` and `%x` of a byte.
unfoldable pub print_02x : ℕ → List Char
print_02x n = digit (n / 16) ∷ digit (n % 16) ∷ []

unfoldable pub print_x : ℕ → List Char
print_x n = if ltb n 16 then digit n ∷ [] else digit (n / 16) ∷ digit (n % 16) ∷ []

-- `printMACAddress`: the bytes but the last one, and then that.
unfoldable pub print_mac_address : List ℕ → List Char
print_mac_address [] = []
print_mac_address (n ∷ []) = print_x n ++ (newline ∷ [])
print_mac_address (n ∷ m ∷ address) = print_02x n ++ (colon ∷ print_mac_address (m ∷ address))

-- What I/O Kit gives for an interface: the controller above it, if it gives one, and of that the data of its address, if it has one.
pub record Interface : Type 0 where
  pub object : ℕ
  pub controller : Option ℕ
  pub data_object : Option (ℕ × List ℕ)

unfoldable pub print_address : Option (ℕ × List ℕ) → List Char × List Ledger
print_address none = ([], [])
print_address (some (object, address)) =
    (print_mac_address address, acquire object ∷ release object ∷ [])

-- A turn of the loop of `main`, up to its label `next`.
unfoldable pub print_controller : Interface → List Char × List Ledger
print_controller interface = elim interface.controller [
  | none ↦ ([], [])
  | some controller ↦
      let (printed, events) = print_address interface.data_object in
      (printed, acquire controller ∷ events ++ (release controller ∷ []))
]

-- The loop of `main`.
unfoldable pub print_interfaces : List Interface → List Char × List Ledger
print_interfaces [] = ([], [])
print_interfaces (interface ∷ interfaces) =
    let (printed, events) = print_controller interface in
    let (later, rest) = print_interfaces interfaces in
    (
      printed ++ later,
      (acquire interface.object ∷ events ++ (release interface.object ∷ [])) ++ rest,
    )

-- `main`, for the iterator and the interfaces that `IOServiceGetMatchingServices` gives, if it succeeds.
unfoldable pub main : Option (ℕ × List Interface) → List Char × List Ledger
main none = ([], [])
main (some (iterator, interfaces)) =
    let (printed, events) = print_interfaces interfaces in
    (printed, (acquire iterator ∷ events) ++ (release iterator ∷ []))
