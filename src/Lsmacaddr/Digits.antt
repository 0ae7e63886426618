-- ===== src/Lsmacaddr/Digits.antt =====
-- 10-33/lsmacaddr.c: the printed address can be read again.
use mac_os_x_internal.Prelude.{ℕ, ◌+◌, ◌*◌, ◌/◌, ◌%◌, ◌<◌, ◌≡◌, List, [], ◌∷◌, arith, refl, All}
use mac_os_x_internal.Lsmacaddr.{Char, digit, colon, newline, print_02x, print_x, print_mac_address}

-- The numbers that are read between the colons of a line, with the digits that have been read of the first one.
unfoldable pub read_address : (read : ℕ) → List Char → List ℕ
read_address read [] = read ∷ []
read_address read (digit d ∷ text) = read_address (read * 16 + d) text
read_address read (colon ∷ text) = read ∷ read_address 0 text
read_address read (newline ∷ text) = read ∷ []

-- What is printed of an address of one byte or more, each below 256, is read again as that address: no two addresses are printed alike.
pub read_address-print_mac_address :
    (n : ℕ) (address : List ℕ)
    → All (λ m. m < 256) (n ∷ address)
    → read_address 0 (print_mac_address (n ∷ address)) ≡ n ∷ address
unfolding read_address print_mac_address print_02x print_x
read_address-print_mac_address n [] small =
    (let whole : (0 * 16 + n / 16) * 16 + n % 16 ≡ n = omega arith in ground (arith, whole))
read_address-print_mac_address n (m ∷ address) small =
    let rest = read_address-print_mac_address m address small.1 in
    let whole : (0 * 16 + n / 16) * 16 + n % 16 ≡ n = omega arith in rw (whole, rest) refl
