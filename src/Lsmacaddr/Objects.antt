-- ===== src/Lsmacaddr/Objects.antt =====
-- 10-33/lsmacaddr.c: the objects that are acquired and released.
use mac_os_x_internal.Prelude.{ℕ, List, [], ◌∷◌, ◌++◌, Option, none, some, arith, refl}
use mac_os_x_internal.Prelude.Ledger.{acquire, release, Settles, Settles-append, none_held, more}
use mac_os_x_internal.Lsmacaddr.{Interface, print_address, print_controller, print_interfaces, main}

interface-Settles :
    (held : ℕ → ℕ) (interface : Interface)
    → Settles held
        (acquire interface.object ∷ (print_controller interface).1
          ++ (release interface.object ∷ []))
        held
unfolding print_controller print_address
interface-Settles held interface = ground arith

pub print_interfaces-Settles :
    (held : ℕ → ℕ) (interfaces : List Interface) → Settles held (print_interfaces interfaces).1 held
unfolding print_interfaces
print_interfaces-Settles held [] = λ r. refl
print_interfaces-Settles held (interface ∷ interfaces) =
    Settles-append held held held
      (acquire interface.object ∷ (print_controller interface).1 ++ (release interface.object ∷ []))
      (print_interfaces interfaces).1 (interface-Settles held interface)
      (print_interfaces-Settles held interfaces)

-- Whatever I/O Kit gives, `main` releases each object that it has acquired, once, and only while it holds it.
pub main-Settles :
    (given : Option (ℕ × List Interface)) → Settles none_held (main given).1 none_held
unfolding main
main-Settles none = λ r. refl
main-Settles (some (iterator, interfaces)) =
    Settles-append none_held (more none_held iterator) none_held
      (acquire iterator ∷ (print_interfaces interfaces).1) (release iterator ∷ [])
      (print_interfaces-Settles (more none_held iterator) interfaces) (ground arith)
