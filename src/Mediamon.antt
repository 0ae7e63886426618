-- ===== src/Mediamon.antt =====
-- 11-7/mediamon.c: a program that prints the properties of the media devices that come and go.
pub mod Dictionaries
mod Tests
use mac_os_x_internal.Prelude.{
  ℕ, Bool, true, false, List, [], ◌∷◌, ◌++◌, Option, none, some, if◌then◌else◌, ℤ, pos, negsuc,
}
use mac_os_x_internal.Prelude.Ledger.{Ledger, acquire, release}

-- What `IORegistryEntryCreateCFProperties` does: it creates a dictionary, or fails, and then either sets the variable to null or leaves it.
pub data Answer : Type 0 where
  created : (dict : ℕ) → Answer
  failed : (nulls : Bool) → Answer

-- A device of the iterator, with the object for its XML text, if there is memory for one.
pub record Device : Type 0 where
  pub object : ℕ
  pub properties : Answer
  pub xml : Option ℕ

-- `printDictionaryAsXML`: its return value, the dictionaries that it prints, and what it acquires and releases.
unfoldable pub print_dictionary_as_xml : (dict : ℕ) → (xml : Option ℕ) → ℤ × List ℕ × List Ledger
print_dictionary_as_xml dict none = (negsuc 0, [], [])
print_dictionary_as_xml dict (some xml) = (pos 0, dict ∷ [], acquire xml ∷ release xml ∷ [])

-- `if (properties) CFRelease(properties);`
unfoldable pub release_properties : Option ℕ → List Ledger
release_properties none = []
release_properties (some dict) = release dict ∷ []

-- The variable `properties` after the call.
unfoldable pub assigned : Answer → Option ℕ → Option ℕ
assigned (created dict) properties = some dict
assigned (failed nulls) properties = if nulls then none else properties

-- What a device prints and does: the call, the printing after a success, and what the call has acquired.
unfoldable pub print_device : Device → List ℕ × List Ledger
print_device device = elim device.properties [
  | created dict ↦
      let (ret, printed, events) = print_dictionary_as_xml dict device.xml in
      (printed, acquire dict ∷ events)
  | failed nulls ↦ ([], [])
]

-- `matchingCallback`: what it prints, and what it acquires and releases. The variable `properties` is that of the whole call, and starts with any value.
unfoldable pub matching_callback : List Device → (properties : Option ℕ) → List ℕ × List Ledger
matching_callback [] properties = ([], [])
matching_callback (device ∷ devices) properties =
    let properties' = assigned device.properties properties in
    let (printed, events) = print_device device in
    let (later, rest) = matching_callback devices properties' in
    (
      printed ++ later,
      acquire device.object ∷ events
          ++ release_properties properties'
          ++ release device.object ∷ rest,
    )

-- The notification port and the iterators of the two requests, which `main` never gives back.
abbrev pub notify_port : ℕ
notify_port = 0

abbrev pub notification_in : ℕ
notification_in = 1

abbrev pub notification_out : ℕ
notification_out = 2

-- `main` up to `CFRunLoopRun`: its exit value, `none` where it runs on, what it prints, and what it acquires and releases. Each of the two requests for
-- notifications consumes a reference of the matching dictionary and gives an iterator. The run loop source belongs to the port.
unfoldable pub main :
    (match_dict : Option ℕ)
    → (incoming outgoing : List Device) → (properties_in properties_out : Option ℕ)
    → Option ℤ × List ℕ × List Ledger
main none incoming outgoing properties_in properties_out = (some (pos 1), [], [])
main (some match_dict) incoming outgoing properties_in properties_out =
    let (printed, events) = matching_callback incoming properties_in in
    let (later, rest) = matching_callback outgoing properties_out in
    (
      none,
      printed ++ later,
      acquire match_dict
            ∷ acquire notify_port
            ∷ acquire match_dict
            ∷ release match_dict
            ∷ acquire notification_in
            ∷ release match_dict
            ∷ acquire notification_out
            ∷ events
          ++ rest,
    )
