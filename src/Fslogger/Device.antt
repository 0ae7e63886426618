-- ===== src/Fslogger/Device.antt =====
-- 11-25/fslogger.c: the device that is opened and cloned before the loop over the events, and the name of a process.
use Prim.Native.String.{String}
use mac_os_x_internal.Prelude.{
  ℕ, ◌≡◌, arith, Bool, true, false, not, List, [], ◌∷◌, Option, none, some, if◌then◌else◌, ℤ,
}
use mac_os_x_internal.Prelude.Ledger.{Ledger, acquire, release, Settles, none_held}
use mac_os_x_internal.Fslogger.{Codes, Buffer, Item, Status, exited, event_processing}

-- `get_proc_name`: what is printed for a process. `p_comm` is what `sysctl` leaves in the structure, none for an empty name.
unfoldable pub get_proc_name : (sysctl_ok : Bool) (p_comm : Option String) → String
get_proc_name false p_comm = "?"
get_proc_name true none = "exited?"
get_proc_name true (some name) = name

-- What the calls before the loop give.
pub record Calls : Type 0 where
  pub no_arguments : Bool
  pub is_root : Bool
  pub opens : Bool
  pub clones : Bool

abbrev pub fd : ℕ
fd = 0

abbrev pub clonefd : ℕ
clonefd = 1

-- `main`: what it prints of the events, how it ends (`finished` while it waits for the next read), and the descriptors that it opens and closes. The variable
-- `is_fse_arg_vnode` starts with 0.
unfoldable pub main : Calls → Codes → List (ℤ × Buffer) → List Item × Status × List Ledger
main calls codes reads =
    let (items, status) = event_processing codes reads false in
    if not calls.no_arguments
    then ([], exited 1, [])
    else if not calls.is_root
    then ([], exited 1, [])
    else if not calls.opens
    then ([], exited 1, [])
    else if not calls.clones
    then ([], exited 1, acquire fd ∷ release fd ∷ [])
    else (items, status, acquire fd ∷ acquire clonefd ∷ release fd ∷ [])

-- Every call has succeeded.
abbrev pub IsReady : Calls → Type 0
IsReady calls =
    (calls.no_arguments ≡ true)
    × (calls.is_root ≡ true)
    × (calls.opens ≡ true)
    × (calls.clones ≡ true)

-- Where a call before the loop fails, `main` prints no event, exits with 1 and holds no descriptor.
pub main-failed :
    (calls : Calls) (codes : Codes) (reads : List (ℤ × Buffer))
    → ¬ IsReady calls
    → ((main calls codes reads).0 ≡ [])
      × ((main calls codes reads).1 ≡ exited 1)
      × Settles none_held (main calls codes reads).2 none_held
unfolding main
main-failed calls codes reads some_fails = ground arith
