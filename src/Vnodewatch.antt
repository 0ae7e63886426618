-- ===== src/Vnodewatch.antt =====
-- 11-37/vnodewatch.c: the client of the vnode watcher in the kernel; `printed` is what it shows of an event.
pub mod Kinds
pub mod Queue
pub mod Resources
mod Tests
use Prim.Native.String.{String}
use mac_os_x_internal.Prelude.{
  ℕ, zero, suc, Bool, true, false, not, List, [], ◌∷◌, ◌++◌, Option, none, some, ◌==◌,
  if◌then◌else◌, get_elem?, test_bit, ℤ, pos, negsuc,
}

-- The actions of sys/kauth.h that are named.
pub data Action : Type 0 where
  read_data write_data execute append_data : Action
  list_directory add_file search add_subdirectory delete_child : Action
  delete read_attributes write_attributes read_extattributes write_extattributes : Action
  read_security write_security take_ownership linktarget checkimmutable access noimmutable : Action

-- `printIfAction` one after the other; `has` is the test of an action's bits.
pub print_if : (Action → Bool) → List Action → List Action
print_if has [] = []
print_if has (a ∷ names) = let rest = print_if has names in if has a then a ∷ rest else rest

abbrev pub file_actions : List Action
file_actions = read_data ∷ write_data ∷ execute ∷ append_data ∷ []

-- From the label `dir` to the label `common`.
abbrev pub dir_actions : List Action
dir_actions = list_directory ∷ add_file ∷ search ∷ add_subdirectory ∷ delete_child ∷ []

abbrev pub common_actions : List Action
common_actions =
    delete ∷ read_attributes ∷ write_attributes ∷ read_extattributes ∷ write_extattributes
    ∷ read_security ∷ write_security ∷ take_ownership ∷ linktarget ∷ checkimmutable ∷ access
    ∷ noimmutable ∷ []

unfoldable pub action_print : (Action → Bool) → (isdir : Bool) → List Action
action_print has isdir =
    (if isdir then print_if has dir_actions else print_if has file_actions)
    ++ print_if has common_actions

abbrev pub vtype_names : List String
vtype_names =
    "VNON" ∷ "VREG" ∷ "VDIR" ∷ "VBLK" ∷ "VCHR" ∷ "VLNK" ∷ "VSOCK" ∷ "VFIFO" ∷ "VBAD" ∷ "VSTR"
    ∷ "VCPLX" ∷ []

-- `vtype_names[vtype]`, `none` outside the table; `vtag_name` is alike.
abbrev pub vtype_name : ℕ → Option String
vtype_name vtype = get_elem? vtype_names vtype

abbrev pub vtag_names : List String
vtag_names =
    "VT_NON" ∷ "VT_UFS" ∷ "VT_NFS" ∷ "VT_MFS" ∷ "VT_MSDOSFS" ∷ "VT_LFS" ∷ "VT_LOFS" ∷ "VT_FDESC"
    ∷ "VT_PORTAL" ∷ "VT_NULL" ∷ "VT_UMAP" ∷ "VT_KERNFS" ∷ "VT_PROCFS" ∷ "VT_AFS" ∷ "VT_ISOFS"
    ∷ "VT_UNION" ∷ "VT_HFS" ∷ "VT_VOLFS" ∷ "VT_DEVFS" ∷ "VT_WEBDAV" ∷ "VT_UDF" ∷ "VT_AFP"
    ∷ "VT_CDDA" ∷ "VT_CIFS" ∷ "VT_OTHER" ∷ []

abbrev pub vtag_name : ℕ → Option String
vtag_name vtag = get_elem? vtag_names vtag

-- `vdata.v_type & VDIR`, where VDIR is 2.
unfoldable pub is_dir : ℕ → Bool
is_dir v_type = test_bit v_type 1

-- `VnodeWatcherData_t`, with its first byte beside the fields.
pub record Vdata : Type 0 where
  pub first_byte : ℕ
  pub pid : ℕ
  pub has : Action → Bool
  pub v_type : ℕ
  pub v_tag : ℕ
  pub p_comm : String
  pub path : String

pub record Shown : Type 0 where
  pub path : String
  pub vtype : Option String
  pub vtag : Option String
  pub pid : ℕ
  pub p_comm : String
  pub actions : List Action

unfoldable pub printed : Vdata → Shown
printed d = record {
  path = d.path;
  vtype = vtype_name d.v_type;
  vtag = vtag_name d.v_tag;
  pid = d.pid;
  p_comm = d.p_comm;
  actions = action_print d.has (is_dir d.v_type);
}

-- `kt_kStopListeningToMessages`.
abbrev pub stop_listening : ℕ
stop_listening = 0xff

-- One `IODataQueueDequeue`: it fails, or gives a message.
abbrev pub Dequeued : Type 0
Dequeued = Option Vdata

-- The inner loop, over what the queue holds: what it prints, and whether it goes to `exit`.
unfoldable pub drain : List Dequeued → List Shown × Bool
drain [] = ([], false)
drain (none ∷ queue) = drain queue
drain (some d ∷ queue) =
    let (rest, stopped) = drain queue in
    if d.first_byte == stop_listening then ([], true) else (printed d ∷ rest, stopped)

-- The outer loop: each successful wait finds a queue. It ends at the first wait that fails, the end of the list.
unfoldable pub watch : List (List Dequeued) → List Shown
watch [] = []
watch (queue ∷ queues) =
    let (shown, stopped) = drain queue in
    let rest = watch queues in if stopped then shown else shown ++ rest

-- What is acquired and released.
pub data Event : Type 0 where
  allocate_port destroy_port map_memory unmap_memory : Event
  get_iterator release_iterator get_service release_service open_connection close_connection : Event

-- What the system answers: return codes, 0 for success.
pub record System : Type 0 where
  pub port_ok : Bool
  pub set_port_code : ℤ
  pub map_code : ℤ
  pub queues : List (List Dequeued)
  pub unmap_code : ℤ
  pub matching_ok : Bool
  pub services_code : ℤ
  pub service_ok : Bool
  pub open_code : ℤ
  pub client_open_code : ℤ
  pub thread_ok : Bool

abbrev pub is_zero : ℤ → Bool
is_zero (pos zero) = true
is_zero (pos (suc n)) = false
is_zero (negsuc n) = false

-- `kIOReturnError`, whose value is not used.
abbrev pub io_return_error : ℤ
io_return_error = negsuc 0

-- `vnodeNotificationHandler`: its result, what it prints, and what it acquires and releases.
unfoldable pub vnode_notification_handler : System → ℤ × List Shown × List Event
vnode_notification_handler sys =
    if not sys.port_ok
    then (io_return_error, [], [])
    else if not (is_zero sys.set_port_code)
    then (sys.set_port_code, [], allocate_port ∷ destroy_port ∷ [])
    else if not (is_zero sys.map_code)
    then (sys.map_code, [], allocate_port ∷ destroy_port ∷ [])
    else (
      sys.unmap_code,
      watch sys.queues,
      allocate_port ∷ map_memory ∷ unmap_memory ∷ destroy_port ∷ [],
    )

-- From the open connection on.
unfoldable pub use_connection : System → ℤ × List Shown × List Event
use_connection sys =
    let (_, shown, events) = vnode_notification_handler sys in
    if not (is_zero sys.client_open_code)
    then (sys.client_open_code, [], close_connection ∷ [])
    else if not sys.thread_ok
    then (pos 0, [], close_connection ∷ [])
    else (pos 0, shown, events ++ close_connection ∷ [])

unfoldable pub main : System → ℤ × List Shown × List Event
main sys =
    let (status, shown, events) = use_connection sys in
    if not sys.matching_ok
    then (negsuc 0, [], [])
    else if not (is_zero sys.services_code)
    then (negsuc 0, [], [])
    else if not sys.service_ok
    then (negsuc 0, [], get_iterator ∷ release_iterator ∷ [])
    else if not (is_zero sys.open_code)
    then (sys.open_code, [], get_iterator ∷ get_service ∷ release_iterator ∷ release_service ∷ [])
    else (
      status,
      shown,
      get_iterator ∷ get_service ∷ release_iterator ∷ open_connection ∷ release_service ∷ events,
    )
