-- ===== src/KqFwatch/Watching.antt =====
-- 9-61/kq_fwatch.c: what is printed of the events, and when the program ends.
use Prim.Native.String.{String}
use mac_os_x_internal.Prelude.{
  ◌≡◌, refl, sym, arith, ap, Bool, true, false, List, [], ◌∷◌, ◌++◌, append-nil, some, map, All, ℤ,
  pos, negsuc, ◌⊎◌,
}
use mac_os_x_internal.KqFwatch.{
  note_delete, vn_event_descriptions, Fflags, print_descriptions, process_events, Received, failure,
  no_event, event, watch_loop, Calls, main,
}

-- The descriptions of all flags that are set in some events.
abbrev pub descriptions : List Fflags → List String
descriptions [] = []
descriptions (fflags ∷ events) =
    print_descriptions vn_event_descriptions fflags ++ descriptions events

watch_loop_keeps :
    (fflags : Fflags) (received : List Received)
    → fflags note_delete ≡ false
    → watch_loop (event fflags ∷ received) ≡ (
      print_descriptions vn_event_descriptions fflags ++ (watch_loop received).0,
      (watch_loop received).1,
    )
unfolding watch_loop process_events
watch_loop_keeps fflags received e = ground arith

watch_loop_stops :
    (fflags : Fflags) (received : List Received)
    → fflags note_delete ≡ true
    → watch_loop (event fflags ∷ received)
      ≡ (print_descriptions vn_event_descriptions fflags, some (negsuc 0))
unfolding watch_loop process_events
watch_loop_stops fflags received e = ground arith

-- The loop prints the descriptions of all events up to the first that tells that the file is deleted, that one with them, in their order, and then
-- is left with the value -1, whatever would come later. No call fails.
pub watch_loop-delete :
    (events : List Fflags) (last : Fflags) (later : List Received)
    → All (λ fflags. fflags note_delete ≡ false) events
    → last note_delete ≡ true
    → let (printed, ret) = watch_loop (map event events ++ event last ∷ later) in
      (printed ≡ descriptions (events ++ last ∷ [])) × (ret ≡ some (negsuc 0))
watch_loop-delete [] last later keeps stops =
    rw (watch_loop_stops last later stops)
      (sym (append-nil (print_descriptions vn_event_descriptions last)), refl)
watch_loop-delete (fflags ∷ events) last later (k, keeps) stops =
    let (printed, ret) = watch_loop-delete events last later keeps stops in
    rw (watch_loop_keeps fflags (map event events ++ event last ∷ later) k) (
      ap (λ (rest : List String). print_descriptions vn_event_descriptions fflags ++ rest) printed,
      ret,
    )

watch_loop_status :
    (received : List Received) (status : ℤ)
    → (watch_loop received).1 ≡ some status
    → status ≡ negsuc 0
unfolding watch_loop process_events
watch_loop_status [] status e = ground arith
watch_loop_status (failure ∷ received) status e = ground arith
watch_loop_status (no_event ∷ received) status e = watch_loop_status received status e
watch_loop_status (event fflags ∷ received) status e =
    ground (arith, watch_loop_status received status)

-- Whatever the calls give, the program ends only with the values 1 or -1, never with 0, although the deletion of the file is what it waits for.
pub main_status :
    (calls : Calls) (one_argument : Bool) (received : List Received) (status : ℤ)
    → (main calls one_argument received).1 ≡ some status
    → (status ≡ pos 1) ⊎ (status ≡ negsuc 0)
unfolding main
main_status calls one_argument received status e = ground (arith, watch_loop_status received status)
