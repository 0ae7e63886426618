-- ===== src/Fslogger/Tests.antt =====
-- 11-25/fslogger.c: runs of the decoder, and the theorems at concrete inputs.
use mac_os_x_internal.Prelude.{
  ◌≡◌, arith, refl, false, some, pos, ◌∷◌, ◌++◌, [], ◌==◌, if◌then◌else◌,
}
use mac_os_x_internal.Fslogger.{
  Codes, Buffer, event, argument, arg_done, finished, ino, is_known, event_name, event_processing,
  and_then, process_events, process_args, show_data, follows_pointer,
}
use mac_os_x_internal.Fslogger.Layout.{report, EntriesAt, entries_shown, event_processing-shown}

abbrev codes : Codes
codes = record {
  events_dropped = 999;
  max_events = 9;
  max_args = 12;
  arg_done = 45887;
  arg_vnode = 1;
  arg_string = 2;
  arg_int32 = 4;
  arg_raw = 6;
  arg_ino = 7;
  arg_uid = 8;
  arg_dev = 9;
  arg_mode = 10;
  arg_gid = 11;
}

-- A deletion by process 70 with one argument, the inode 5, and the end of its arguments.
abbrev deletion : Buffer
deletion = record {
  int32_at = λ n. if n == 0 then pos 1 else pos 70;
  u32_at = λ n. 5;
  u16_at = λ n. if n == 8 then 7 else if n == 10 then 4 else 45887;
}

deletion_decoded : event_processing codes ((pos 18, deletion) ∷ []) false ≡ (
  event "FSE_DELETE" (pos 70) ∷ argument (some "FSE_ARG_INO") 4 (ino 5) ∷ arg_done ∷ [],
  finished false,
)
unfolding event_processing and_then process_events process_args show_data follows_pointer is_known
    event_name
deletion_decoded = refl

deletion-EntriesAt :
    EntriesAt codes deletion 0 (report (pos 1) "FSE_DELETE" (pos 70) ((7, 4) ∷ []) ∷ []) 18
unfolding is_known event_name
deletion-EntriesAt =
    (refl, refl, refl, refl, refl, omega arith, (18, (refl, refl, refl, refl, (refl, refl)), refl))

event_processing-shown_example :
    let (shown, next) =
      entries_shown codes deletion 0 false
        (report (pos 1) "FSE_DELETE" (pos 70) ((7, 4) ∷ []) ∷ []) in
    let (later, status) = event_processing codes [] next in
    event_processing codes ((pos 18, deletion) ∷ []) false ≡ (shown ++ later, status)
event_processing-shown_example =
    event_processing-shown codes deletion 18 false
      (report (pos 1) "FSE_DELETE" (pos 70) ((7, 4) ∷ []) ∷ []) [] deletion-EntriesAt
