-- ===== src/VnodeDriver/Tests.antt =====
-- 11-36/VnodeWatcher.cpp at concrete inputs, with a client at the other end of the queue.
use Prim.Native.String.{String}
use mac_os_x_internal.Prelude.{ℕ, ◌≡◌, refl, arith, true, false, List, [], ◌∷◌, some, map}
use mac_os_x_internal.Vnodewatch.{Vdata, printed, watch}
use mac_os_x_internal.VnodeDriver.{
  UserClient, Access, init_with_task, start, stop, start_logging, stop_logging, open_client, close,
  terminate, client_close,
}
use mac_os_x_internal.VnodeDriver.Listeners.{
  Reach, here, next, opens, client_closes, stops, IsSound, started, Reach-IsSound,
  reopened-dangling,
}
use mac_os_x_internal.VnodeDriver.Stream.{roomy, logged, received, dequeued, watch-stop}

abbrev blank : UserClient
blank = record started {
  client = false;
  provider = false;
  queue = false;
  memory = false;
  queue_refs = 0;
  memory_refs = 0;
}

set_up : (start true true true true (init_with_task true true blank).0).0 ≡ started
unfolding start init_with_task
set_up = refl

-- Without a queue, `start` returns true all the same.
no_queue : (start true true false true (init_with_task true true blank).0).1 ≡ true
unfolding start init_with_task
no_queue = refl

abbrev opened : UserClient
opened = (open_client true true started).0

opened-Reach : Reach started (stop roomy (client_close opened))
unfolding open_client start_logging client_close close terminate stop_logging
opened-Reach =
    next (next (next here (opens true true refl refl)) (client_closes refl)) (stops roomy refl refl)

Reach-IsSound_example : IsSound (stop roomy (client_close opened))
Reach-IsSound_example = Reach-IsSound opened-Reach

reopened-dangling_example :
    let reopened = (open_client true true (close opened).0).0 in
    let last = stop roomy (client_close reopened) in
    (last.listeners ≡ 1) × (last.queue ≡ false) × (last.queue_refs ≡ 0)
unfolding open_client start_logging
reopened-dangling_example = reopened-dangling roomy opened refl (omega arith) refl refl refl refl

-- An access to "/a" by process 70, one to the log file "/l", and one by process 255.
abbrev plain : Access
plain = record {
  pid = 70;
  p_comm = "sh";
  has = λ a. true;
  v_type = 1;
  v_tag = 16;
  path = some (b'/' ∷ b'a' ∷ 0 ∷ []);
}

abbrev log_file : List ℕ
log_file = b'/' ∷ b'l' ∷ 0 ∷ []

abbrev own : Access
own = record plain { path = some log_file }

abbrev confused : Access
confused = record plain { pid = 255 }

abbrev text : List ℕ → String
text bytes = "/"

abbrev stale : Vdata
stale = record {
  first_byte = 0;
  pid = 0;
  has = λ a. false;
  v_type = 0;
  v_tag = 0;
  p_comm = "";
  path = "";
}

watch-stop_example :
    watch (
      map
        (dequeued log_file 100 false text stale)
        (stop roomy
          (record started { messages = logged log_file 100 (plain ∷ own ∷ []) [] })).messages
      ∷ [])
    ≡ printed (received log_file 100 false text stale plain) ∷ []
watch-stop_example =
    watch-stop log_file 100 false text stale (plain ∷ own ∷ []) started
      (map (dequeued log_file 100 false text stale)
          (stop roomy
            (record started { messages = logged log_file 100 (plain ∷ own ∷ []) [] })).messages
        ∷ [])
      [] refl refl (omega arith) refl
