-- ===== src/VmInherit/Forking.antt =====
-- 8-14/vm_inherit.c: what each process sees of the other's stores.
use mac_os_x_internal.Prelude.{ℕ, ◌≡◌, ◌≢◌, true, false, List, [], ◌∷◌, arith, map}
use mac_os_x_internal.Prelude.Ledger.{Settles, none_held}
use mac_os_x_internal.VmInherit.{
  Line, Store, View, Region, peek_at_some_memory, child_process, inherit, Calls, run_processes, out,
  main,
}

-- The first words that the lines show.
abbrev pub contents_of : List Line → List ℕ
contents_of lines = map (λ line. line.contents) lines

-- Where no call fails, the pages lie in two objects and the copy in a third, the child finds what the parent has stored in both pages, and the parent finds
-- the child's store in the shared page and its own in the other one.
pub main-contents :
    (calls : Calls) (region : Region) (view : View) (fresh1 fresh2 : ℕ) (store : Store)
    → calls.allocate_shared ≡ true
    → calls.allocate_cow ≡ true
    → calls.inherit_shared ≡ true
    → calls.inherit_cow ≡ true
    → calls.fork_fails ≡ false
    → view.page_shared ≢ view.page_cow
    → fresh2 ≢ view.page_shared
    → fresh2 ≢ view.page_cow
    → contents_of (main calls region view fresh1 fresh2 store).0
      ≡ 0xaaaaaaaa ∷ 0xbbbbbbbb ∷ 0xaaaaaaaa ∷ 0xbbbbbbbb ∷ 0xfeedf00d ∷ 0xbaddf00d ∷ 0xfeedf00d
        ∷ 0xbbbbbbbb ∷ []
unfolding main run_processes child_process peek_at_some_memory inherit
main-contents calls region view fresh1 fresh2 store a b c d e apart apart1 apart2 = ground arith

-- Whatever fails, each page that has been allocated is given back.
pub main-Settles :
    (calls : Calls) (region : Region) (view : View) (fresh1 fresh2 : ℕ) (store : Store)
    → view.page_shared ≢ view.page_cow
    → Settles none_held (main calls region view fresh1 fresh2 store).1 none_held
unfolding main out
main-Settles calls region view fresh1 fresh2 store apart = ground arith
