-- ===== src/Lsmacaddr/Tests.antt =====
-- 10-33/lsmacaddr.c at concrete inputs.
use mac_os_x_internal.Prelude.{◌≡◌, [], ◌∷◌, arith, refl}
use mac_os_x_internal.Lsmacaddr.{print_mac_address, print_02x, print_x, digit, colon, newline}
use mac_os_x_internal.Lsmacaddr.Digits.{read_address, read_address-print_mac_address}

-- The last byte has no leading zero.
short_last : print_mac_address (10 ∷ 5 ∷ []) ≡ digit 0 ∷ digit 10 ∷ colon ∷ digit 5 ∷ newline ∷ []
unfolding print_mac_address print_02x print_x
short_last = refl

read_address-print_mac_address_example :
    read_address 0 (print_mac_address (0 ∷ 10 ∷ 149 ∷ 177 ∷ 32 ∷ 5 ∷ []))
    ≡ 0 ∷ 10 ∷ 149 ∷ 177 ∷ 32 ∷ 5 ∷ []
read_address-print_mac_address_example =
    read_address-print_mac_address 0 (10 ∷ 149 ∷ 177 ∷ 32 ∷ 5 ∷ [])
      (omega arith, (omega arith, (omega arith, (omega arith, (omega arith, (omega arith, tt))))))
