-- ===== src/KqFwatch.antt =====
-- 9-61/kq_fwatch.c: a program that prints the events of a file until it is deleted.
pub mod Watching
mod Tests
use Prim.Native.String.{String}
use mac_os_x_internal.Prelude.{
  ℕ, zero, suc, ◌+◌, ◌-◌, Bool, true, false, not, List, [], ◌∷◌, ◌++◌, Option, none, some, ltb, leb,
  ◌==◌, if◌then◌else◌, ℤ, pos, negsuc,
}
use mac_os_x_internal.Prelude.Ledger.{Ledger, acquire, release}

-- The flags of `NOTE_ALL`.
pub data Note : Type 0 where
  note_attrib note_delete note_extend note_link note_rename note_revoke note_write : Note

-- `VnEventDescriptions`.
abbrev pub vn_event_descriptions : List (Note × String)
vn_event_descriptions =
    (note_attrib, "attributes changed")
    ∷ (note_delete, "deleted")
    ∷ (note_extend, "extended")
    ∷ (note_link, "link count changed")
    ∷ (note_rename, "renamed")
    ∷ (note_revoke, "access revoked or file system unmounted")
    ∷ (note_write, "written")
    ∷ []

-- The flags that are set in `fflags`.
abbrev pub Fflags : Type 0
Fflags = Note → Bool

-- The loop of `process_events` over the table.
unfoldable pub print_descriptions : List (Note × String) → Fflags → List String
print_descriptions [] fflags = []
print_descriptions ((event, description) ∷ rest) fflags =
    let later = print_descriptions rest fflags in
    if fflags event then description ∷ later else later

-- `process_events`: what it prints and returns.
unfoldable pub process_events : Fflags → List String × ℤ
process_events fflags = (
  print_descriptions vn_event_descriptions fflags,
  if fflags note_delete then negsuc 0 else pos 0,
)

-- What `kevent` gives: a failure, no event, or one event.
pub data Received : Type 0 where
  failure no_event : Received
  event : Fflags → Received

-- The loop of `main`: what it prints, and `ret` when it is left, `none` while it waits.
unfoldable pub watch_loop : List Received → List String × Option ℤ
watch_loop [] = ([], none)
watch_loop (failure ∷ received) = ([], some (negsuc 0))
watch_loop (no_event ∷ received) = watch_loop received
watch_loop (event fflags ∷ received) =
    let (printed, ret) = process_events fflags in
    let (later, last) = watch_loop received in
    elim ret [
      | pos zero ↦ (printed ++ later, last)
      | pos (suc n) ↦ (printed, some (pos (suc n)))
      | negsuc n ↦ (printed, some (negsuc n))
    ]

-- What the calls before the loop give.
pub record Calls : Type 0 where
  pub kqueue : Bool
  pub open_file : Bool
  pub add_event : Bool

abbrev pub kqfd : ℕ
kqfd = 0

abbrev pub fd : ℕ
fd = 1

-- `main`: what it prints, its exit value (`none` while it waits), and the descriptors that it opens and closes. `one_argument` is `argc == 2`.
unfoldable pub main :
    Calls → (one_argument : Bool) → List Received → List String × Option ℤ × List Ledger
main calls one_argument received =
    let (printed, ret) = watch_loop received in
    if not one_argument
    then ([], some (pos 1), [])
    else if not calls.kqueue
    then ([], some (pos 1), [])
    else if not calls.open_file
    then ([], some (pos 1), acquire kqfd ∷ [])
    else if not calls.add_event
    then ([], some (negsuc 0), acquire kqfd ∷ acquire fd ∷ release kqfd ∷ [])
    else elim ret [
      | none ↦ (printed, none, acquire kqfd ∷ acquire fd ∷ [])
      | some status ↦ (printed, some status, acquire kqfd ∷ acquire fd ∷ release kqfd ∷ [])
    ]
