-- ===== src/Lsmdquery.antt =====
-- 11-28/lsmdquery.c: the query of a smart folder, the notifications of a query, and `main`, with the objects that each holds.
pub mod Objects
mod Tests
use mac_os_x_internal.Prelude.{
  ℕ, zero, suc, ◌+◌, ◌-◌, ◌<◌, Bool, true, false, not, List, [], ◌∷◌, ◌++◌, Option, none, some, ltb,
  leb, ◌==◌, if◌then◌else◌, ℤ, pos, negsuc,
}
use mac_os_x_internal.Prelude.Ledger.{Ledger, acquire, release}

-- The objects of the program.
abbrev pub folder_fd : ℕ
folder_fd = 0

abbrev pub xml_data : ℕ
xml_data = 1

abbrev pub property_list : ℕ
property_list = 2

abbrev pub error_string : ℕ
error_string = 3

abbrev pub raw_query : ℕ
raw_query = 4

abbrev pub query_ref : ℕ
query_ref = 5

-- What the system answers about a smart folder: `none` where a call fails, and whether the dictionary has a query.
pub record Folder : Type 0 where
  pub open_ok : Bool
  pub fstat_ok : Bool
  pub size : ℕ
  pub data_ok : Bool
  pub pointer_ok : Bool
  pub list_ok : Bool
  pub has_query : Bool

-- How a function ends: with or without a query, or in a crash.
pub data Extracted : Type 0 where
  query : Extracted
  nothing : Extracted
  crashed : Extracted

-- The label `out`: the file is closed, and the property list and the data are released if they are there.
unfoldable pub out : (has_list has_data : Bool) → List Ledger
out has_list has_data =
    release folder_fd ∷ (if has_list then release property_list ∷ [] else [])
    ++ (if has_data then release xml_data ∷ [] else [])

-- From the property list on. `CFRetain` of a null pointer crashes, before the query is tested.
unfoldable pub take_query : Folder → Extracted × List Ledger
take_query f =
    if not f.list_ok
    then (nothing, acquire error_string ∷ release error_string ∷ out false true)
    else if not f.has_query
    then (crashed, acquire property_list ∷ [])
    else (query, acquire property_list ∷ acquire raw_query ∷ out true true)

-- `ExtractRawQueryFromSmartFolder`.
unfoldable pub extract_raw_query_from_smart_folder : Folder → Extracted × List Ledger
extract_raw_query_from_smart_folder f =
    let (result, events) = take_query f in
    if not f.open_ok
    then (nothing, [])
    else if not f.fstat_ok
    then (nothing, acquire folder_fd ∷ out false false)
    else if f.size == 0
    then (nothing, acquire folder_fd ∷ out false false)
    else if not f.data_ok
    then (nothing, acquire folder_fd ∷ out false false)
    else if not f.pointer_ok
    then (nothing, acquire folder_fd ∷ acquire xml_data ∷ out false true)
    else (result, acquire folder_fd ∷ acquire xml_data ∷ events)

-- A notification, by its name.
pub data Notification : Type 0 where
  did_finish did_update progress : Notification

-- What the callback does: it turns updates off and on, prints a result by its index, and prints the total or the update.
pub data Action : Type 0 where
  disable_updates enable_updates : Action
  print_result : ℕ → Action
  print_total : ℕ → Action
  show_update : Action

-- The loop over the results from `idx` on; `rounds` is `count - idx`.
unfoldable pub print_results : (rounds idx : ℕ) → List Action
print_results zero idx = []
print_results (suc rounds) idx = print_result idx ∷ print_results rounds (idx + 1)

-- `notificationCallback`; `count` is the number of results of the query.
unfoldable pub notification_callback : Notification → (count : ℕ) → List Action
notification_callback did_finish count =
    disable_updates ∷ (if ltb 0 count then print_results count 0 ++ print_total count ∷ [] else [])
    ++ enable_updates ∷ []
notification_callback did_update count = show_update ∷ []
notification_callback progress count = []

-- The options of `main`: `-f` with what its folder gives, `-q` with whether a string was made, and others.
pub data Opt : Type 0 where
  f : Folder → Opt
  q : (made : Bool) → Opt
  other : Opt

-- What `main` comes to: the usage with status 1, the end with status 0, or a crash.
pub data Outcome : Type 0 where
  used : Outcome
  ended : Outcome
  fell : Outcome

-- The `getopt` loop: whether there is a query, or how the program ends; a later option forgets the query of an earlier one.
unfoldable pub parse_options : List Opt → (found : Bool) → Option Bool × Outcome × List Ledger
parse_options [] found = (some found, ended, [])
parse_options (f folder ∷ opts) found =
    let (result, events) = extract_raw_query_from_smart_folder folder in
    let (next, outcome, later) = parse_options opts (elim result [ query ↦ true | _ ↦ false ]) in
    elim result [ crashed ↦ (none, fell, events) | _ ↦ (next, outcome, events ++ later) ]
parse_options (q made ∷ opts) found =
    let (next, outcome, later) = parse_options opts made in
    (next, outcome, if made then acquire raw_query ∷ later else later)
parse_options (other ∷ opts) found = (none, used, [])

-- From the query on, by whether the query object and the notification centre are there. The run loop ends with the program.
unfoldable pub run_query : (query_ok center_ok : Bool) → List Ledger
run_query query_ok center_ok =
    if not query_ok
    then release raw_query ∷ []
    else acquire query_ref ∷ release raw_query ∷ release query_ref ∷ []

unfoldable pub main : (query_ok center_ok : Bool) → List Opt → Outcome × List Ledger
main query_ok center_ok opts =
    let (found, outcome, events) = parse_options opts false in
    elim found [
      | none ↦ (outcome, events)
      | some false ↦ (used, events)
      | some true ↦ (ended, events ++ run_query query_ok center_ok)
    ]
