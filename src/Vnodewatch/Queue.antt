-- ===== src/Vnodewatch/Queue.antt =====
-- 11-37/vnodewatch.c: what is printed of the messages in the queue.
use mac_os_x_internal.Prelude.{
  ◌≡◌, arith, refl, List, [], ◌∷◌, ◌++◌, none, some, ◌==◌, map, if◌then◌else◌,
}
use mac_os_x_internal.Vnodewatch.{Vdata, Dequeued, printed, drain, watch, stop_listening}

-- The messages before the first one that asks to stop; a failed dequeue gives none.
abbrev pub before_stop : List Dequeued → List Vdata
before_stop [] = []
before_stop (none ∷ queue) = before_stop queue
before_stop (some d ∷ queue) =
    let rest = before_stop queue in if d.first_byte == stop_listening then [] else d ∷ rest

abbrev pub concat : List (List Dequeued) → List Dequeued
concat [] = []
concat (queue ∷ queues) = queue ++ concat queues

drain_append :
    (queue later : List Dequeued)
    → map printed (before_stop (queue ++ later)) ≡ (
        if (drain queue).1
        then (drain queue).0
        else (drain queue).0 ++ map printed (before_stop later))
unfolding drain
drain_append [] later = refl
drain_append (none ∷ queue) later = drain_append queue later
drain_append (some d ∷ queue) later = ground (arith, drain_append queue later)

-- However the messages come in between the waits, the program prints those before the first message that asks to stop, or
-- all if none does, in their order.
pub watch-concat :
    (queues : List (List Dequeued)) → watch queues ≡ map printed (before_stop (concat queues))
unfolding watch
watch-concat [] = refl
watch-concat (queue ∷ queues) =
    ground (arith, watch-concat queues, drain_append queue (concat queues))
