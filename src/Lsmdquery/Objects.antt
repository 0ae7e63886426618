-- ===== src/Lsmdquery/Objects.antt =====
-- 11-28/lsmdquery.c: what the extraction of a query, and `main`, leave behind.
use mac_os_x_internal.Prelude.{ℕ, ◌≡◌, ◌≢◌, arith, Bool, true, false, [], ◌∷◌, ◌==◌, if◌then◌else◌}
use mac_os_x_internal.Prelude.Ledger.{Settles, none_held, only}
use mac_os_x_internal.Lsmdquery.{
  Folder, Extracted, query, nothing, crashed, raw_query, folder_fd, xml_data, property_list, out,
  take_query, extract_raw_query_from_smart_folder, f, fell, main, run_query, parse_options,
}

-- What is held after the extraction: the query if there is one, and after a crash the file, its data and the property list.
abbrev pub left : Extracted → ℕ → ℕ
left query r = only raw_query r
left nothing r = 0
left crashed r =
    if r == folder_fd then 1 else if r == xml_data then 1 else if r == property_list then 1 else 0

-- Whatever the system answers, the extraction releases what it acquires, each object while it is held, and holds at its end the query
-- that it returns, and nothing else; but where it crashes it holds the file, its data and the property list.
pub extract_raw_query-Settles :
    (folder : Folder)
    → let (result, events) = extract_raw_query_from_smart_folder folder in
      Settles none_held events (left result)
unfolding extract_raw_query_from_smart_folder take_query out
extract_raw_query-Settles folder = ground arith

-- A smart folder that can be opened and read as a property list without a query crashes the program: the query is retained before it is
-- tested.
pub extract_raw_query-crashed :
    (folder : Folder)
    → folder.open_ok ≡ true
    → folder.fstat_ok ≡ true
    → folder.size ≢ 0
    → folder.data_ok ≡ true
    → folder.pointer_ok ≡ true
    → folder.list_ok ≡ true
    → folder.has_query ≡ false
    → (extract_raw_query_from_smart_folder folder).0 ≡ crashed
unfolding extract_raw_query_from_smart_folder take_query
extract_raw_query-crashed folder a b c d e g h = ground arith

-- A run on one smart folder that does not crash in the extraction releases all that it acquires, each object while it is held.
pub main-Settles :
    (folder : Folder) (query_ok center_ok : Bool)
    → (main query_ok center_ok (f folder ∷ [])).0 ≢ fell
    → Settles none_held (main query_ok center_ok (f folder ∷ [])).1 (λ r. 0)
unfolding extract_raw_query_from_smart_folder take_query out main run_query parse_options
main-Settles folder query_ok center_ok lives = ground arith
