-- ===== src/Vnodewatch/Tests.antt =====
-- 11-37/vnodewatch.c at concrete inputs.
use mac_os_x_internal.Prelude.{ℕ, ◌≡◌, refl, Bool, true, false, [], ◌∷◌, some, none, pos, map}
use mac_os_x_internal.Vnodewatch.{
  System, Vdata, Action, delete, main, printed, drain, watch, use_connection,
  vnode_notification_handler,
}
use mac_os_x_internal.Vnodewatch.Queue.{watch-concat, before_stop, concat}

abbrev only_delete : Action → Bool
only_delete delete = true
only_delete a = false

abbrev removal : Vdata
removal = record {
  first_byte = 0;
  pid = 70;
  has = only_delete;
  v_type = 3;
  v_tag = 16;
  p_comm = "rm";
  path = "/dev/disk1";
}

abbrev stop : Vdata
stop = record removal { first_byte = 0xff }

abbrev watched : System
watched = record {
  port_ok = true;
  set_port_code = pos 0;
  map_code = pos 0;
  queues = (some removal ∷ none ∷ []) ∷ (some stop ∷ some removal ∷ []) ∷ [];
  unmap_code = pos 0;
  matching_ok = true;
  services_code = pos 0;
  service_ok = true;
  open_code = pos 0;
  client_open_code = pos 0;
  thread_ok = true;
}

one_line : (main watched).1 ≡ printed removal ∷ []
unfolding main use_connection vnode_notification_handler watch drain
one_line = refl

abbrev block_device : ℕ
block_device = 3

watch-concat_example : watch watched.queues ≡ map printed (before_stop (concat watched.queues))
watch-concat_example = watch-concat watched.queues
