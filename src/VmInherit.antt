-- ===== src/VmInherit.antt =====
-- 8-14/vm_inherit.c: a page that a child process shares with its parent, and one that it gets a copy of.
pub mod Forking
mod Tests
use mac_os_x_internal.Prelude.{
  ℕ, Bool, true, false, not, List, [], ◌∷◌, ◌++◌, Option, none, some, if◌then◌else◌, update,
}
use mac_os_x_internal.Prelude.Ledger.{Ledger, acquire, release}

pub data Who : Type 0 where
  parent child : Who

pub data Event : Type 0 where
  before_touching after_writing before_forking after_child : Event

-- A line that `peek_at_some_memory` prints: the page, its first word, and its object with the count of references, none where `mach_vm_region` fails
-- and the variables keep what they held.
pub record Line : Type 0 where
  pub who : Who
  pub shared : Bool
  pub contents : ℕ
  pub object : Option (ℕ × ℕ)
  pub event : Event

-- The first word of each memory object.
abbrev pub Store : Type 0
Store = ℕ → ℕ

-- The objects behind `page_shared` and `page_cow` in a process.
pub record View : Type 0 where
  pub page_shared : ℕ
  pub page_cow : ℕ

-- What `mach_vm_region` gives for an object at each event, none where it fails.
abbrev pub Region : Type 0
Region = Event → ℕ → Option (ℕ × ℕ)

unfoldable pub get_object_id : Region → Event → ℕ → Option (ℕ × ℕ)
get_object_id region event object = region event object

unfoldable pub peek_at_some_memory : Region → Who → Event → View → Store → List Line
peek_at_some_memory region who event view store =
    record {
      who = who;
      shared = true;
      contents = store view.page_shared;
      object = get_object_id region event view.page_shared;
      event = event;
    }
    ∷ record {
      who = who;
      shared = false;
      contents = store view.page_cow;
      object = get_object_id region event view.page_cow;
      event = event;
    }
    ∷ []

-- `child_process`: what it prints, and the memory after it.
unfoldable pub child_process : Region → View → Store → List Line × Store
child_process region view store =
    let store' = update (update store view.page_shared 0xfeedf00d) view.page_cow 0xbaddf00d in
    (
      peek_at_some_memory region child before_touching view store
          ++ peek_at_some_memory region child after_writing view store',
      store',
    )

-- How a page is inherited.
pub data Inherit : Type 0 where
  vm_inherit_share vm_inherit_copy : Inherit

-- The object that the child of `fork` gets for an object of its parent: the same one, or a copy, in an object that is not in use.
unfoldable pub inherit : Inherit → (object fresh : ℕ) → Store → ℕ × Store
inherit vm_inherit_share object fresh store = (object, store)
inherit vm_inherit_copy object fresh store = (fresh, update store fresh (store object))

-- The calls of `main` that can fail, and the objects of its two pages.
pub record Calls : Type 0 where
  pub allocate_shared : Bool
  pub allocate_cow : Bool
  pub inherit_shared : Bool
  pub inherit_cow : Bool
  pub fork_fails : Bool

-- `main` from the first stores on: what both processes print, and the memory after them. `fresh1` and `fresh2` are the objects of copies.
unfoldable pub run_processes :
    Region → (fork_fails : Bool) → View → (fresh1 fresh2 : ℕ) → Store → List Line × Store
run_processes region fork_fails view fresh1 fresh2 store =
    let store1 = update (update store view.page_shared 0xaaaaaaaa) view.page_cow 0xbbbbbbbb in
    let (child_shared, store2) = inherit vm_inherit_share view.page_shared fresh1 store1 in
    let (child_cow, store3) = inherit vm_inherit_copy view.page_cow fresh2 store2 in
    let (lines, store4) =
      child_process region (record { page_shared = child_shared; page_cow = child_cow }) store3 in
    let first = peek_at_some_memory region parent before_forking view store1 in
    if fork_fails
    then (first ++ peek_at_some_memory region parent after_child view store1, store1)
    else (first ++ lines ++ peek_at_some_memory region parent after_child view store4, store4)

-- The label `out`, as what it gives back of the two pages: a page that has not been allocated has the address 0, where nothing is held.
unfoldable pub out : View → (has_shared has_cow : Bool) → List Ledger
out view has_shared has_cow =
    (if has_shared then release view.page_shared ∷ [] else [])
    ++ (if has_cow then release view.page_cow ∷ [] else [])

-- `main`: what is printed, and the pages that the parent allocates and gives back. The exit status is always 0.
unfoldable pub main : Calls → Region → View → (fresh1 fresh2 : ℕ) → Store → List Line × List Ledger
main calls region view fresh1 fresh2 store =
    let (lines, store') = run_processes region calls.fork_fails view fresh1 fresh2 store in
    let one = acquire view.page_shared ∷ out view true false in
    let both = acquire view.page_shared ∷ acquire view.page_cow ∷ out view true true in
    if not calls.allocate_shared
    then ([], out view false false)
    else if not calls.allocate_cow
    then ([], one)
    else if not calls.inherit_shared
    then ([], both)
    else if not calls.inherit_cow
    then ([], both)
    else (lines, both)
