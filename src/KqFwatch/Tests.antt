-- ===== src/KqFwatch/Tests.antt =====
-- 9-61/kq_fwatch.c at concrete inputs.
use mac_os_x_internal.Prelude.{true, false, ◌≡◌, refl, [], ◌∷◌, some, negsuc}
use mac_os_x_internal.KqFwatch.{
  note_delete, note_link, note_write, Fflags, event, failure, print_descriptions, process_events,
  watch_loop,
}
use mac_os_x_internal.KqFwatch.Watching.{watch_loop-delete}

abbrev wrote : Fflags
wrote note = elim note [ note_write ↦ true | _ ↦ false ]

-- The last link is gone.
abbrev unlinked : Fflags
unlinked note = elim note [ note_delete ↦ true | note_link ↦ true | _ ↦ false ]

two_lines : (process_events unlinked).0 ≡ "deleted" ∷ "link count changed" ∷ []
unfolding process_events print_descriptions
two_lines = refl

watch_loop-delete_example :
    let (printed, ret) = watch_loop (event wrote ∷ event wrote ∷ event unlinked ∷ failure ∷ []) in
    (printed ≡ "written" ∷ "written" ∷ "deleted" ∷ "link count changed" ∷ [])
    × (ret ≡ some (negsuc 0))
unfolding print_descriptions
watch_loop-delete_example =
    watch_loop-delete (wrote ∷ wrote ∷ []) unlinked (failure ∷ []) (refl, (refl, tt)) refl
