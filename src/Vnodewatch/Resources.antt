-- ===== src/Vnodewatch/Resources.antt =====
-- 11-37/vnodewatch.c: what is acquired and released on each path.
use mac_os_x_internal.Prelude.{◌≡◌, arith, Bool, true, false, List, [], ◌∷◌}
use mac_os_x_internal.Vnodewatch.{
  System, Event, main, use_connection, vnode_notification_handler, allocate_port, destroy_port,
  map_memory, unmap_memory, get_iterator, release_iterator, get_service, release_service,
  open_connection, close_connection,
}

-- The five resources: which of them are held.
pub record Held : Type 0 where
  pub port : Bool
  pub memory : Bool
  pub iterator : Bool
  pub service : Bool
  pub connection : Bool

abbrev pub nothing : Held
nothing = record {
  port = false;
  memory = false;
  iterator = false;
  service = false;
  connection = false;
}

-- Each event finds its resource free, to acquire it, or held, to release it, and after the last event nothing is held.
pub IsReleased : Held → List Event → Type 0
IsReleased h [] = h ≡ nothing
IsReleased h (allocate_port ∷ es) = (h.port ≡ false) × IsReleased (record h { port = true }) es
IsReleased h (destroy_port ∷ es) = (h.port ≡ true) × IsReleased (record h { port = false }) es
IsReleased h (map_memory ∷ es) = (h.memory ≡ false) × IsReleased (record h { memory = true }) es
IsReleased h (unmap_memory ∷ es) = (h.memory ≡ true) × IsReleased (record h { memory = false }) es
IsReleased h (get_iterator ∷ es) =
    (h.iterator ≡ false) × IsReleased (record h { iterator = true }) es
IsReleased h (release_iterator ∷ es) =
    (h.iterator ≡ true) × IsReleased (record h { iterator = false }) es
IsReleased h (get_service ∷ es) = (h.service ≡ false) × IsReleased (record h { service = true }) es
IsReleased h (release_service ∷ es) =
    (h.service ≡ true) × IsReleased (record h { service = false }) es
IsReleased h (open_connection ∷ es) =
    (h.connection ≡ false) × IsReleased (record h { connection = true }) es
IsReleased h (close_connection ∷ es) =
    (h.connection ≡ true) × IsReleased (record h { connection = false }) es

-- Whatever the system answers, `main` and its thread release everything that they acquire, each thing while it is held:
-- the notification port, the mapped queue, the iterator, the service object and the connection.
pub main-IsReleased : (sys : System) → IsReleased nothing (main sys).2
unfolding main use_connection vnode_notification_handler IsReleased
main-IsReleased sys = ground arith
