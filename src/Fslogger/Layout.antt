-- ===== src/Fslogger/Layout.antt =====
-- 11-25/fslogger.c: a stream that is laid out as records is decoded to these records.
use Prim.Native.String.{String}
use mac_os_x_internal.Prelude.{
  ℕ, zero, suc, ◌+◌, ◌≤◌, ◌<◌, ◌≡◌, arith, refl, length, some, if◌then◌else◌, Bool, true, false,
  List, [], ◌∷◌, ◌++◌, ◌==◌, ℤ, pos, get_elem?,
}
use mac_os_x_internal.Fslogger.{
  Codes, Buffer, Item, finished, argument, arg_done, dropped, event, process_args, process_events,
  event_processing, and_then, show_data, follows_pointer, arg_id, is_known, is_dropped, event_name,
  kfse_arg_names,
}

-- A record of the stream: lost events, or an event with its name and the types and lengths of its arguments.
pub data Entry : Type 0 where
  lost : (pid : ℤ) → Entry
  report : (type : ℤ) → (name : String) → (pid : ℤ) → (args : List (ℕ × ℕ)) → Entry

module _ (codes : Codes) (buf : Buffer) where
  -- The arguments stand from `off` on, one behind the other, and the end mark behind them ends at `last`. Raw data
  -- is empty, since the code takes it for a pointer.
  abbrev pub ArgsAt : ℕ → List (ℕ × ℕ) → ℕ → Type 0
  ArgsAt off [] last = (buf.u16_at off ≡ codes.arg_done) × (last ≡ off + 2)
  ArgsAt off ((type, len) ∷ args) last =
      (buf.u16_at off ≡ type)
      × ((type == codes.arg_done) ≡ false)
      × (buf.u16_at (off + 2) ≡ len)
      × ((if type == codes.arg_raw then len else 0) ≡ 0)
      × ArgsAt (off + (4 + len)) args last

  -- What is printed of them, and the flag behind them.
  abbrev pub args_shown : ℕ → Bool → List (ℕ × ℕ) → List Item × Bool
  args_shown off vnode [] = (arg_done ∷ [], vnode)
  args_shown off vnode ((type, len) ∷ args) =
      let data_shown = show_data codes buf off vnode in
      let (later, last) = args_shown (off + (4 + len)) data_shown.1 args in
      (argument (get_elem? kfse_arg_names (arg_id codes type)) len data_shown.0 ∷ later, last)

  -- The records stand from `off` on, and the last one ends at `last`.
  abbrev pub EntriesAt : ℕ → List Entry → ℕ → Type 0
  EntriesAt off [] last = off ≡ last
  EntriesAt off (lost pid ∷ entries) last =
      (is_dropped codes (buf.int32_at off) ≡ true)
      × (buf.int32_at (off + 4) ≡ pid)
      × EntriesAt (off + 8 + 2) entries last
  EntriesAt off (report type name pid args ∷ entries) last =
      (buf.int32_at off ≡ type)
      × (is_dropped codes type ≡ false)
      × (is_known codes type ≡ true)
      × (event_name type ≡ some name)
      × (buf.int32_at (off + 4) ≡ pid)
      × (length args ≤ codes.max_args)
      × ((mid : ℕ) × ArgsAt (off + 8) args mid × EntriesAt mid entries last)

  -- Where the end mark behind the arguments ends.
  abbrev pub args_end : ℕ → List (ℕ × ℕ) → ℕ
  args_end off [] = off + 2
  args_end off ((type, len) ∷ args) = args_end (off + (4 + len)) args

  -- What is printed of the records, and the flag behind them.
  abbrev pub entries_shown : ℕ → Bool → List Entry → List Item × Bool
  entries_shown off vnode [] = ([], vnode)
  entries_shown off vnode (lost pid ∷ entries) =
      let (later, last) = entries_shown (off + 8 + 2) vnode entries in (dropped pid ∷ later, last)
  entries_shown off vnode (report type name pid args ∷ entries) =
      let (shown, next) = args_shown (off + 8) vnode args in
      let (later, last) = entries_shown (args_end (off + 8) args) next entries in
      (event name pid ∷ shown ++ later, last)

  ArgsAt-end :
      (off : ℕ) (args : List (ℕ × ℕ)) (last : ℕ)
      → ArgsAt off args last
      → (last ≡ args_end off args) × (off + 2 ≤ last)
  ArgsAt-end off [] last (mark, e) = (e, omega arith)
  ArgsAt-end off ((type, len) ∷ args) last (_, _, _, _, rest) =
      let (e, le) = ArgsAt-end (off + (4 + len)) args last rest in (e, omega arith)

  EntriesAt-le :
      (off : ℕ) (entries : List Entry) (last : ℕ) → EntriesAt off entries last → off ≤ last
  EntriesAt-le off [] last e = omega arith
  EntriesAt-le off (lost pid ∷ entries) last (_, _, rest) =
      let le = EntriesAt-le (off + 8 + 2) entries last rest in omega arith
  EntriesAt-le off (report type name pid args ∷ entries) last
        (_, _, _, _, _, _, (mid, inside, rest)) =
      let le = EntriesAt-le mid entries last rest in
      let (_, le') = ArgsAt-end (off + 8) args mid inside in omega arith

  follows_pointer-empty :
      (off type len : ℕ) (vnode : Bool)
      → buf.u16_at off ≡ type
      → buf.u16_at (off + 2) ≡ len
      → (if type == codes.arg_raw then len else 0) ≡ 0
      → follows_pointer (show_data codes buf off vnode).0 ≡ false
  unfolding show_data follows_pointer
  follows_pointer-empty off type len vnode e e' empty = ground arith

  process_args-shown :
      (ret rounds off : ℕ) (vnode : Bool) (args : List (ℕ × ℕ)) (last : ℕ)
      → ArgsAt off args last
      → last ≤ ret
      → length args < rounds
      → process_args codes buf ret rounds (record { off = off; vnode = vnode }) ≡ (
        (args_shown off vnode args).0,
        some (record { off = last; vnode = (args_shown off vnode args).1 }),
      )
  unfolding process_args
  process_args-shown ret zero off vnode args last at inside few = absurd (omega arith)
  process_args-shown ret (suc rounds) off vnode [] last (mark, e) inside few = ground arith
  process_args-shown ret (suc rounds) off vnode ((type, len) ∷ args) last
        (e, other, e', empty, rest) inside few =
      let le = (ArgsAt-end (off + (4 + len)) args last rest).1 in
      ground (
        arith,
        follows_pointer-empty off type len vnode e e' empty,
        process_args-shown ret rounds (off + (4 + len)) (show_data codes buf off vnode).1 args last
            rest,
      )

  process_events-shown :
      (ret fuel off : ℕ) (vnode : Bool) (entries : List Entry)
      → EntriesAt off entries ret
      → ret < off + fuel
      → 0 < fuel
      → process_events codes buf ret fuel (record { off = off; vnode = vnode })
        ≡ ((entries_shown off vnode entries).0, finished (entries_shown off vnode entries).1)
  unfolding process_events
  process_events-shown ret zero off vnode entries at enough some_fuel = absurd (omega arith)
  process_events-shown ret (suc fuel) off vnode [] e enough some_fuel = ground arith
  process_events-shown ret (suc fuel) off vnode (lost pid ∷ entries) (e, e', rest) enough
        some_fuel =
      let le = EntriesAt-le (off + 8 + 2) entries ret rest in
      ground (
        arith,
        process_events-shown ret fuel (off + 8 + 2) vnode entries rest (omega arith) (omega arith),
      )
  process_events-shown ret (suc fuel) off vnode (report type name pid args ∷ entries)
        (e, kept, known, called, e', few, (mid, inside, rest)) enough some_fuel =
      let le = EntriesAt-le mid entries ret rest in
      let (end_eq, le') = ArgsAt-end (off + 8) args mid inside in
      ground (
        arith,
        process_args-shown ret (suc codes.max_args) (off + 8) vnode args mid inside le
            (omega arith),
        process_events-shown ret fuel mid (args_shown (off + 8) vnode args).1 entries rest
            (omega arith) (omega arith),
      )

  -- Where the bytes of a read are laid out as records, of lost events and of events whose type is known and has a name (which -1 has not), with
  -- at most `FSE_MAX_ARGS` arguments and no raw data but empty ones,
  -- the program prints these records with their arguments in order, and goes on to the next read.
  pub event_processing-shown :
      (ret : ℕ) (vnode : Bool) (entries : List Entry) (reads : List (ℤ × Buffer))
      → EntriesAt 0 entries ret
      → let (shown, next) = entries_shown 0 vnode entries in
        let (later, status) = event_processing codes reads next in
        event_processing codes ((pos ret, buf) ∷ reads) vnode ≡ (shown ++ later, status)
  unfolding event_processing and_then
  event_processing-shown ret vnode entries reads at =
      rw (process_events-shown ret (suc ret) 0 vnode entries at (omega arith) (omega arith)) refl
