-- ===== src/VnodeDriver.antt =====
-- 11-36/VnodeWatcher.cpp: the user client of the vnode watcher in the kernel, and the callback that fills its queue.
pub mod Listeners
pub mod Stream
mod Tests
use Prim.Native.String.{String}
use mac_os_x_internal.Prelude.{
  ℕ, zero, suc, ◌+◌, ◌-◌, ◌/◌, ◌%◌, ◌^◌, Bool, true, false, not, ◌&&◌, List, [], ◌∷◌, ◌++◌, Option,
  none, some, ltb, leb, ◌==◌, if◌then◌else◌, length,
}
use mac_os_x_internal.Vnodewatch.{Vdata, Action, stop_listening}

-- What the callback finds out about an access; `path` as `vn_getpath` gives it, its bytes with the zero behind them, if it succeeds.
pub record Access : Type 0 where
  pub pid : ℕ
  pub p_comm : String
  pub has : Action → Bool
  pub v_type : ℕ
  pub v_tag : ℕ
  pub path : Option (List ℕ)

-- A message in the queue, with its size in bytes: the data of an access, or the one byte of `stop`.
pub data Message : Type 0 where
  access : (size : ℕ) → Access → Message
  stop_message : Message

-- Whether two runs of bytes are equal: the comparison of their lengths, then `memcmp`.
abbrev pub same_bytes : List ℕ → List ℕ → Bool
same_bytes [] [] = true
same_bytes [] (y ∷ ys) = false
same_bytes (x ∷ xs) [] = false
same_bytes (x ∷ xs) (y ∷ ys) = (x == y) && same_bytes xs ys

-- `sizeof(data) - sizeof(data.path)`, with the length of the path, 1 where there is none.
abbrev pub size_of : (header_size : ℕ) → Access → ℕ
size_of header_size a = header_size + elim a.path [ none ↦ 1 | some bytes ↦ length bytes ]

-- The access is to the log file itself. A failed `vn_getpath` leaves an empty path, which is not the log file's.
abbrev pub is_log_file : (log_file_path : List ℕ) → Access → Bool
is_log_file log_file_path a = elim a.path [
  | none ↦ false
  | some bytes ↦ same_bytes bytes log_file_path
]

-- `my_vnode_authorize_callback`: the messages that it puts in the queue; `accepts` tells whether the queue has room for a message behind
-- those that are in it, and the result of `enqueue` is not looked at.
unfoldable pub authorize_callback :
    (log_file_path : List ℕ) (header_size : ℕ)
    → (List Message → Message → Bool)
    → Access
    → List Message
    → List Message
authorize_callback log_file_path header_size accepts a queue =
    let message = access (size_of header_size a) a in
    if is_log_file log_file_path a
    then queue
    else if accepts queue message
    then queue ++ message ∷ []
    else queue

-- The user client: which of its pointers are set; whether it is inactive and has its provider open; how many listeners are registered with
-- its queue as their cookie; how many references to the queue and to the memory it and its task hold; and the messages.
pub record UserClient : Type 0 where
  pub client : Bool
  pub provider : Bool
  pub queue : Bool
  pub memory : Bool
  pub listener : Bool
  pub inactive : Bool
  pub opened : Bool
  pub listeners : ℕ
  pub queue_refs : ℕ
  pub memory_refs : ℕ
  pub messages : List Message

pub data Return : Type 0 where
  success not_attached exclusive_access internal_error error no_memory : Return

-- `initWithTask`, for an object whose fields have any value.
unfoldable pub init_with_task : (super_ok owning_task : Bool) → UserClient → UserClient × Bool
init_with_task super_ok owning_task u =
    if not super_ok
    then (u, false)
    else if not owning_task
    then (u, false)
    else (record u { client = true; provider = false; queue = false; memory = false }, true)

-- `start`. The two errors of the queue are codes that are not 0, returned as `bool`.
unfoldable pub start : (cast_ok super_ok queue_ok memory_ok : Bool) → UserClient → UserClient × Bool
start cast_ok super_ok queue_ok memory_ok u =
    let attached = record u { provider = true } in
    if not cast_ok
    then (record u { provider = false }, false)
    else if not super_ok
    then (attached, false)
    else if not queue_ok
    then (record attached { queue = false }, true)
    else if not memory_ok
    then (record attached { queue = false; memory = false }, true)
    else (
      record attached {
        queue = true;
        memory = true;
        queue_refs = u.queue_refs + 1;
        memory_refs = u.memory_refs + 1;
      },
      true,
    )

-- `stop`.
unfoldable pub stop : (List Message → Message → Bool) → UserClient → UserClient
stop accepts u =
    let sent =
      if u.queue && accepts u.messages stop_message
      then u.messages ++ stop_message ∷ []
      else u.messages in
    record u {
      messages = sent;
      memory_refs = if u.memory then u.memory_refs - 1 else u.memory_refs;
      memory = false;
      queue_refs = if u.queue then u.queue_refs - 1 else u.queue_refs;
      queue = false;
    }

-- `startLogging`; the answer of `kauth_listen_scope` replaces `fListener`.
unfoldable pub start_logging : (listen_ok : Bool) → UserClient → UserClient × Return
start_logging listen_ok u =
    if listen_ok
    then (record u { listener = true; listeners = u.listeners + 1 }, success)
    else (record u { listener = false }, internal_error)

-- `stopLogging`. Each callback is a step of its own here, so the wait for running callbacks at its end has nothing to wait for.
unfoldable pub stop_logging : UserClient → UserClient
stop_logging u =
    if u.listener then record u { listener = false; listeners = u.listeners - 1 } else u

-- `open`; `open_ok` is the answer of the provider.
unfoldable pub open_client : (open_ok listen_ok : Bool) → UserClient → UserClient × Return
open_client open_ok listen_ok u =
    if u.inactive
    then (u, not_attached)
    else if not open_ok
    then (u, exclusive_access)
    else start_logging listen_ok (record u { opened = true })

-- `close`.
unfoldable pub close : UserClient → UserClient × Return
close u = if not u.provider then (u, not_attached) else (record u { opened = false }, success)

-- `terminate`.
unfoldable pub terminate : UserClient → UserClient
terminate u =
    let closed = if u.provider then record u { opened = false } else u in
    record (stop_logging closed) { inactive = true }

-- `clientClose`.
unfoldable pub client_close : UserClient → UserClient
client_close u = record (terminate (close u).0) { client = false; provider = false }

-- `registerNotificationPort`.
abbrev pub register_notification_port : (port : ℕ) → UserClient → Return
register_notification_port port u =
    if not u.queue then error else if port == 0 then error else success

-- `clientMemoryForType`.
unfoldable pub client_memory_for_type : (is_default : Bool) → UserClient → UserClient × Return
client_memory_for_type is_default u =
    if not is_default
    then (u, no_memory)
    else if not u.memory
    then (u, no_memory)
    else (record u { memory_refs = u.memory_refs + 1 }, success)

-- `getTargetAndMethodForIndex`: both methods, 0 and 1, have the user client as their target.
abbrev pub method_for_index : ℕ → Option ℕ
method_for_index index = if leb 2 index then none else some index
