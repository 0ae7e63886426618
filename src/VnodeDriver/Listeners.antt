-- ===== src/VnodeDriver/Listeners.antt =====
-- 11-36/VnodeWatcher.cpp: which listeners are registered, over the whole life of a user client.
use mac_os_x_internal.Prelude.{ℕ, ◌-◌, ◌<◌, ◌≡◌, arith, Bool, true, false, List, [], if◌then◌else◌}
use mac_os_x_internal.VnodeDriver.{
  UserClient, Message, Access, authorize_callback, stop, start_logging, stop_logging, open_client,
  close, terminate, client_close, client_memory_for_type,
}

-- What the task and the kernel do with a started user client. The task opens it while no listener of it is registered; the kernel calls `stop`
-- once it is inactive.
pub data Step (u : UserClient) (v : UserClient) : Type 0 where
  opens :
      (open_ok listen_ok : Bool)
      → u.listeners ≡ 0
      → v ≡ (open_client open_ok listen_ok u).0
      → Step u v
  closes : v ≡ (close u).0 → Step u v
  maps : (is_default : Bool) → v ≡ (client_memory_for_type is_default u).0 → Step u v
  unmaps : 1 < u.memory_refs → v ≡ record u { memory_refs = u.memory_refs - 1 } → Step u v
  calls_back :
      (log_file_path : List ℕ) (header_size : ℕ) (accepts : List Message → Message → Bool)
      (a : Access)
      → 0 < u.listeners
      → v
        ≡ record u { messages = authorize_callback log_file_path header_size accepts a u.messages }
      → Step u v
  client_closes : v ≡ client_close u → Step u v
  terminates : v ≡ terminate u → Step u v
  stops :
      (accepts : List Message → Message → Bool) → u.inactive ≡ true → v ≡ stop accepts u → Step u v

pub data Reach (u : UserClient) : UserClient → Type 0 where
  here : Reach u u
  next : {v w : UserClient} → Reach u v → Step v w → Reach u w

-- One listener is registered exactly while `fListener` is set; then the queue that it fills is alive, and the client is active, as
-- it is whenever it has a provider to open. The queue is referred to exactly while `fDataQueue` is set.
pub record IsSound (u : UserClient) : Type 0 where
  pub registered : u.listeners ≡ (if u.listener then 1 else 0)
  pub alive : u.listener ≡ true → u.queue ≡ true
  pub active : u.listener ≡ true → u.inactive ≡ false
  pub attached : u.inactive ≡ false → (u.provider ≡ true) × (u.queue ≡ true)
  pub counted : u.queue_refs ≡ (if u.queue then 1 else 0)

Step-IsSound : {u v : UserClient} → Step u v → IsSound u → IsSound v
unfolding open_client start_logging close client_memory_for_type client_close terminate stop_logging
    stop
Step-IsSound (opens open_ok listen_ok e e') s = ground arith
Step-IsSound (closes e) s = ground arith
Step-IsSound (maps is_default e) s = ground arith
Step-IsSound (unmaps more e) s = ground arith
Step-IsSound (calls_back log_file_path header_size accepts a more e) s = ground arith
Step-IsSound (client_closes e) s = ground arith
Step-IsSound (terminates e) s = ground arith
Step-IsSound (stops accepts inactive e) s = ground arith

-- A user client that `start` has set up.
abbrev pub started : UserClient
started = record {
  client = true;
  provider = true;
  queue = true;
  memory = true;
  listener = false;
  inactive = false;
  opened = false;
  listeners = 0;
  queue_refs = 1;
  memory_refs = 1;
  messages = [];
}

-- From a started user client on, in any order of the calls by its task and by the kernel, as long as the task opens it only while no
-- listener of it is registered, and the kernel stops it only once it is inactive: one listener is registered exactly while
-- `fListener` is set, its queue is alive then, and the queue is referred to exactly while `fDataQueue` is set; and an active
-- client has its provider and its queue.
pub Reach-IsSound : {u : UserClient} → Reach started u → IsSound u
Reach-IsSound here = ground arith
Reach-IsSound (next r step) = Step-IsSound step (Reach-IsSound r)

-- A task that closes a user client which listens, and opens it again, with success, loses a listener: after `clientClose` and `stop` there are as many
-- listeners registered as before, though the queue that is their cookie has been released. `close` keeps the listener, and the second `open`
-- writes over it.
pub reopened-dangling :
    (accepts : List Message → Message → Bool) (u : UserClient)
    → u.listener ≡ true
    → 0 < u.listeners
    → u.inactive ≡ false
    → u.provider ≡ true
    → u.queue ≡ true
    → u.queue_refs ≡ 1
    → let reopened = (open_client true true (close u).0).0 in
      let last = stop accepts (client_close reopened) in
      (last.listeners ≡ u.listeners) × (last.queue ≡ false) × (last.queue_refs ≡ 0)
unfolding open_client start_logging close client_close terminate stop_logging stop
reopened-dangling accepts u listens some_listener active attached alive once = ground arith
