-- ===== src/Lsmdquery/Tests.antt =====
-- 11-28/lsmdquery.c at concrete inputs.
use mac_os_x_internal.Prelude.{◌≡◌, refl, true, false, [], ◌∷◌}
use mac_os_x_internal.Prelude.Ledger.{acquire, release, Settles, none_held}
use mac_os_x_internal.Lsmdquery.{
  Folder, raw_query, query_ref, f, q, ended, main, parse_options, run_query, take_query,
  extract_raw_query_from_smart_folder, notification_callback, print_results, did_finish,
  disable_updates, enable_updates, print_result, print_total,
}
use mac_os_x_internal.Lsmdquery.Objects.{left, extract_raw_query-Settles}

-- A folder with a query, and a property list without one.
abbrev smart : Folder
smart = record {
  open_ok = true;
  fstat_ok = true;
  size = 700;
  data_ok = true;
  pointer_ok = true;
  list_ok = true;
  has_query = true;
}

abbrev plain : Folder
plain = record smart { has_query = false }

finished_actions :
    notification_callback did_finish 2
    ≡ disable_updates ∷ print_result 0 ∷ print_result 1 ∷ print_total 2 ∷ enable_updates ∷ []
unfolding notification_callback print_results
finished_actions = refl

-- A second query loses the first.
two_queries : main true true (q true ∷ q true ∷ []) ≡ (
  ended,
  acquire raw_query
      ∷ acquire raw_query
      ∷ acquire query_ref
      ∷ release raw_query
      ∷ release query_ref
      ∷ [],
)
unfolding main parse_options run_query
two_queries = refl

extract_raw_query-Settles_example :
    Settles none_held
      (extract_raw_query_from_smart_folder smart).1
      (left (extract_raw_query_from_smart_folder smart).0)
extract_raw_query-Settles_example = extract_raw_query-Settles smart

main_ended : (main true true (f smart ∷ [])).0 ≡ ended
unfolding main parse_options extract_raw_query_from_smart_folder take_query
main_ended = refl
