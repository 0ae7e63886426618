-- ===== src/Mediamon/Dictionaries.antt =====
-- 11-7/mediamon.c: whether each dictionary is released once.
use mac_os_x_internal.Prelude.{
  ℕ, ◌≡◌, ◌≢◌, true, false, List, [], ◌∷◌, ◌++◌, Option, none, some, arith, refl, All, append_assoc,
  subst,
}
use mac_os_x_internal.Prelude.Ledger.{
  Ledger, acquire, release, Settles, Settles-append, none_held, more,
}
use mac_os_x_internal.Mediamon.{
  Answer, created, failed, Device, print_dictionary_as_xml, release_properties, assigned,
  print_device, matching_callback, main, notify_port, notification_in, notification_out,
}

-- The dictionary is created, or the variable set to null.
abbrev pub IsDefinite : Answer → Type 0
IsDefinite (created dict) = Unit
IsDefinite (failed nulls) = nulls ≡ true

-- What one device acquires and releases.
unfoldable device_events : Device → Option ℕ → List Ledger
device_events device properties =
    acquire device.object
      ∷ ((print_device device).1 ++ release_properties (assigned device.properties properties))
    ++ (release device.object ∷ [])

device-Settles :
    (held : ℕ → ℕ) (device : Device) (properties : Option ℕ)
    → IsDefinite device.properties
    → Settles held (device_events device properties) held
unfolding device_events print_device print_dictionary_as_xml release_properties assigned
device-Settles held device properties definite = ground arith

pub matching_callback-Settles :
    (held : ℕ → ℕ) (devices : List Device) (properties : Option ℕ)
    → All (λ device. IsDefinite device.properties) devices
    → Settles held (matching_callback devices properties).1 held
unfolding matching_callback device_events
matching_callback-Settles held [] properties definite = λ r. refl
matching_callback-Settles held (device ∷ devices) properties definite =
    let properties' = assigned device.properties properties in
    let rest = (matching_callback devices properties').1 in
    let own = acquire device.object ∷ ((print_device device).1 ++ release_properties properties') in
    subst (λ events. Settles held events held) (append_assoc own (release device.object ∷ []) rest)
      (Settles-append held held held (device_events device properties) rest
        (device-Settles held device properties definite.0)
        (matching_callback-Settles held devices properties' definite.1))

set_up-Settles :
    (match_dict : ℕ)
    → Settles none_held
        (acquire match_dict
          ∷ acquire notify_port
          ∷ acquire match_dict
          ∷ release match_dict
          ∷ acquire notification_in
          ∷ release match_dict
          ∷ acquire notification_out
          ∷ [])
        (more (more (more none_held notify_port) notification_in) notification_out)
set_up-Settles match_dict = ground arith

-- What is held when the program runs on: nothing without a matching dictionary, and else the notification port and the two iterators.
abbrev pub held_by : (match_dict : Option ℕ) → ℕ → ℕ
held_by none = none_held
held_by (some match_dict) =
    more (more (more none_held notify_port) notification_in) notification_out

pub main-Settles :
    (match_dict properties_in properties_out : Option ℕ) (incoming outgoing : List Device)
    → All (λ device. IsDefinite device.properties) incoming
    → All (λ device. IsDefinite device.properties) outgoing
    → Settles none_held
        (main match_dict incoming outgoing properties_in properties_out).2
        (held_by match_dict)
unfolding main
main-Settles none p q incoming outgoing definite definite' = λ r. refl
main-Settles (some match_dict) p q incoming outgoing definite definite' =
    let kept = held_by (some match_dict) in
    let events = (matching_callback incoming p).1 ++ (matching_callback outgoing q).1 in
    let both : Settles kept events kept =
      Settles-append kept kept kept (matching_callback incoming p).1
        (matching_callback outgoing q).1 (matching_callback-Settles kept incoming p definite)
        (matching_callback-Settles kept outgoing q definite') in
    Settles-append none_held kept kept
      (acquire match_dict
        ∷ acquire notify_port
        ∷ acquire match_dict
        ∷ release match_dict
        ∷ acquire notification_in
        ∷ release match_dict
        ∷ acquire notification_out
        ∷ [])
      events (set_up-Settles match_dict) both

-- A call that fails and leaves the variable, after one that has created a dictionary, has that dictionary released a second time, when
-- it is not held any more: whatever the other devices are.
pub matching_callback-overreleased :
    (held left : ℕ → ℕ) (a b : Device) (devices : List Device) (properties : Option ℕ) (dict : ℕ)
    → a.properties ≡ created dict
    → b.properties ≡ failed false
    → held dict ≡ 0
    → a.object ≢ dict
    → b.object ≢ dict
    → ¬ Settles held (matching_callback (a ∷ b ∷ devices) properties).1 left
unfolding matching_callback print_device print_dictionary_as_xml release_properties assigned
matching_callback-overreleased held left a b devices properties dict succeeds fails free apart
      apart' =
    ground arith
