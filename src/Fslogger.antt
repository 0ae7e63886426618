-- ===== src/Fslogger.antt =====
-- 11-25/fslogger.c: the decoder of the event stream that is read from /dev/fsevents.
pub mod Layout
pub mod Ends
pub mod Device
pub mod Names
mod Tests
use Prim.Native.String.{String}
use mac_os_x_internal.Prelude.{
  ℕ, zero, suc, ◌+◌, ◌-◌, ◌/◌, ◌%◌, ◌^◌, Bool, true, false, not, ◌&&◌, List, [], ◌∷◌, ◌++◌, Option,
  none, some, ltb, leb, ◌==◌, if◌then◌else◌, ℤ, pos, negsuc, get_elem?,
}

-- The numbers of sys/fsevents.h.
pub record Codes : Type 0 where
  pub events_dropped : ℕ
  pub max_events : ℕ
  pub max_args : ℕ
  pub arg_done : ℕ
  pub arg_vnode : ℕ
  pub arg_string : ℕ
  pub arg_int32 : ℕ
  pub arg_raw : ℕ
  pub arg_ino : ℕ
  pub arg_uid : ℕ
  pub arg_dev : ℕ
  pub arg_mode : ℕ
  pub arg_gid : ℕ

-- The buffer, as numbers read at a byte offset; it keeps what earlier reads left behind the last one.
pub record Buffer : Type 0 where
  pub int32_at : ℕ → ℤ
  pub u32_at : ℕ → ℕ
  pub u16_at : ℕ → ℕ

abbrev pub kfse_names : List String
kfse_names =
    "FSE_CREATE_FILE" ∷ "FSE_DELETE" ∷ "FSE_STAT_CHANGED" ∷ "FSE_RENAME" ∷ "FSE_CONTENT_MODIFIED"
    ∷ "FSE_EXCHANGE" ∷ "FSE_FINDER_INFO_CHANGED" ∷ "FSE_CREATE_DIR" ∷ "FSE_CHOWN" ∷ []

abbrev pub kfse_arg_names : List String
kfse_arg_names =
    "FSE_ARG_UNKNOWN" ∷ "FSE_ARG_VNODE" ∷ "FSE_ARG_STRING" ∷ "FSE_ARGPATH" ∷ "FSE_ARG_INT32"
    ∷ "FSE_ARG_INT64" ∷ "FSE_ARG_RAW" ∷ "FSE_ARG_INO" ∷ "FSE_ARG_UID" ∷ "FSE_ARG_DEV"
    ∷ "FSE_ARG_MODE" ∷ "FSE_ARG_GID" ∷ "FSE_ARG_FINFO" ∷ []

pub data Vtype : Type 0 where
  vnon vreg vdir vblk vchr vlnk vsock vfifo vbad vstr vcplx : Vtype

abbrev pub iftovt_tab : List Vtype
iftovt_tab =
    vnon ∷ vfifo ∷ vchr ∷ vnon ∷ vdir ∷ vnon ∷ vblk ∷ vnon ∷ vreg ∷ vnon ∷ vlnk ∷ vnon ∷ vsock
    ∷ vnon ∷ vnon ∷ vbad ∷ []

-- `iftovt_tab[(va_type & S_IFMT) >> 12]`, of the four bits of the file type in a mode.
unfoldable pub vtype_of : ℕ → Option Vtype
vtype_of mode = get_elem? iftovt_tab (mode / 2 ^ 12 % 2 ^ 4)

-- What is printed of the data of an argument, by its type: a string by its offset, and raw data by the pointer
-- that is read there, since the code follows the pointer.
pub data Shown : Type 0 where
  path : ℕ → Shown
  string : ℕ → Shown
  int32 : ℤ → Shown
  raw : (pointer len : ℕ) → Shown
  ino : ℕ → Shown
  uid : ℕ → Shown
  fsid : ℕ → Shown
  dev : ℕ → Shown
  mode : ℕ → Option Vtype → Shown
  gid : ℕ → Shown
  unknown : Shown

pub data Item : Type 0 where
  dropped : ℤ → Item
  event : (name : String) → (pid : ℤ) → Item
  argument : (name : Option String) → (len : ℕ) → Shown → Item
  arg_done : Item

-- The switch on the type of the argument at `off`; `vnode` is `is_fse_arg_vnode`.
unfoldable pub show_data : Codes → Buffer → (off : ℕ) → (vnode : Bool) → Shown × Bool
show_data codes buf off vnode =
    let type = buf.u16_at off in
    let at = off + 4 in
    if type == codes.arg_vnode
    then (path at, true)
    else if type == codes.arg_string
    then (string at, vnode)
    else if type == codes.arg_int32
    then (int32 (buf.int32_at at), vnode)
    else if type == codes.arg_raw
    then (raw (buf.u32_at at) (buf.u16_at (off + 2)), vnode)
    else if type == codes.arg_ino
    then (ino (buf.u32_at at), vnode)
    else if type == codes.arg_uid
    then (uid (buf.u32_at at), vnode)
    else if type == codes.arg_dev
    then (if vnode then (fsid (buf.u32_at at), false) else (dev (buf.u32_at at), vnode))
    else if type == codes.arg_mode
    then (mode (buf.u32_at at) (vtype_of (buf.u32_at at)), vnode)
    else if type == codes.arg_gid
    then (gid (buf.u32_at at), vnode)
    else (unknown, vnode)

-- Whether the code follows a pointer of the buffer: it does for each byte of raw data, and there is no object that the pointer is known to
-- point to.
unfoldable pub follows_pointer : Shown → Bool
follows_pointer (raw pointer len) = ltb 0 len
follows_pointer _ = false

-- `arg_id`, the index of the argument's name.
abbrev pub arg_id : Codes → ℕ → ℕ
arg_id codes type = if ltb codes.max_args type then 0 else type

-- Where the decoder stands: the offset, and `is_fse_arg_vnode`.
pub record Place : Type 0 where
  pub off : ℕ
  pub vnode : Bool

-- The loop over the arguments of one event; `rounds` is `FSE_MAX_ARGS + 1 - i`. There is no place behind them where
-- the code follows a pointer of the buffer: what it does then is undefined.
unfoldable pub process_args : Codes → Buffer → (ret rounds : ℕ) → Place → List Item × Option Place
process_args codes buf ret zero p = ([], some p)
process_args codes buf ret (suc rounds) p =
    let type = buf.u16_at p.off in
    let len = buf.u16_at (p.off + 2) in
    let (data_shown, vnode) = show_data codes buf p.off p.vnode in
    let (later, q) =
      process_args codes buf ret rounds (record { off = p.off + (4 + len); vnode = vnode }) in
    if not (ltb p.off ret)
    then ([], some p)
    else if type == codes.arg_done
    then (arg_done ∷ [], some (record p { off = p.off + 2 }))
    else if follows_pointer data_shown
    then (argument (get_elem? kfse_arg_names (arg_id codes type)) len data_shown ∷ [], none)
    else (argument (get_elem? kfse_arg_names (arg_id codes type)) len data_shown ∷ later, q)

-- The test of an event's type, `-1` included.
unfoldable pub is_known : Codes → ℤ → Bool
is_known codes (pos n) = ltb n codes.max_events
is_known codes (negsuc zero) = true
is_known codes (negsuc (suc n)) = false

-- `kfseNames[type]`, `none` where the index is outside the table.
unfoldable pub event_name : ℤ → Option String
event_name (pos n) = get_elem? kfse_names n
event_name (negsuc n) = none

abbrev pub is_dropped : Codes → ℤ → Bool
is_dropped codes (pos n) = n == codes.events_dropped
is_dropped codes (negsuc n) = false

-- How the program goes on. It is `undefined` behind a use of a pointer of the buffer, or of an index outside `kfseNames`.
pub data Status : Type 0 where
  finished : (vnode : Bool) → Status
  exited : ℕ → Status
  undefined : Status
  out_of_fuel : Status

-- The loop over the events of one read of `ret` bytes.
unfoldable pub process_events : Codes → Buffer → (ret fuel : ℕ) → Place → List Item × Status
process_events codes buf ret zero p = ([], out_of_fuel)
process_events codes buf ret (suc fuel) p =
    let type = buf.int32_at p.off in
    let pid = buf.int32_at (p.off + 4) in
    let after_dropped = process_events codes buf ret fuel (record p { off = p.off + 8 + 2 }) in
    let (args, q) =
      process_args codes buf ret (suc codes.max_args) (record p { off = p.off + 8 }) in
    let after_event : List Item × Status = elim q [
      | none ↦ ([], undefined)
      | some r ↦ process_events codes buf ret fuel r
    ] in
    if not (ltb p.off ret)
    then ([], finished p.vnode)
    else if is_dropped codes type
    then (dropped pid ∷ after_dropped.0, after_dropped.1)
    else if is_known codes type
    then elim (event_name type) [
      | none ↦ ([], undefined)
      | some name ↦ (event name pid ∷ args ++ after_event.0, after_event.1)
    ]
    else ([], exited 1)

-- What follows the events of one read: the next read, unless the program has left the loop.
unfoldable pub and_then : List Item × Status → (Bool → List Item × Status) → List Item × Status
and_then (items, finished vnode) next = (items ++ (next vnode).0, (next vnode).1)
and_then (items, exited n) next = (items, exited n)
and_then (items, undefined) next = (items, undefined)
and_then (items, out_of_fuel) next = (items, out_of_fuel)

-- The forever loop: each `read` gives its result and the buffer after it. A result of 0 or less has no
-- event.
unfoldable pub event_processing : Codes → List (ℤ × Buffer) → (vnode : Bool) → List Item × Status
event_processing codes [] vnode = ([], finished vnode)
event_processing codes ((pos ret, buf) ∷ reads) vnode =
    and_then (process_events codes buf ret (suc ret) (record { off = 0; vnode = vnode }))
      (λ v. event_processing codes reads v)
event_processing codes ((negsuc n, buf) ∷ reads) vnode = event_processing codes reads vnode
