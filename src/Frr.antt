-- ===== src/Frr.antt =====
-- 3-31/frr.c: a function is rerouted by a branch that is written over its first instruction.
pub mod Target
pub mod Errors
pub mod Install
pub mod Remove
pub mod Demo
mod Tests
use mac_os_x_internal.Prelude.{
  ℕ, suc, ◌+◌, ◌*◌, ◌/◌, ◌%◌, ◌^◌, Bool, true, false, Option, none, some, List, ◌∷◌, leb, ◌==◌,
  if◌then◌else◌, u32, update, ℤ, pos, negsuc, not,
}

-- `branch_t`, an instruction word with its primary opcode in the highest bits.
pub record Branch : Type 0 where
  pub op : ℕ
  pub li : ℕ
  pub aa : ℕ
  pub lk : ℕ

-- The word that the bit fields fill: an assignment keeps the low bits of a value.
unfoldable pub branch_word : Branch → ℕ
branch_word b = b.op % 2 ^ 6 * 2 ^ 26 + b.li % 2 ^ 24 * 2 ^ 2 + b.aa % 2 * 2 + b.lk % 2

abbrev pub branch_mopcode : ℕ
branch_mopcode = 0x12

abbrev pub absolute_branch : ℕ → Branch
absolute_branch target_address = record { op = branch_mopcode; li = target_address; aa = 1; lk = 0 }

-- `frr_data_t`, with the four bytes of `f_bytes` as one word.
pub record FrrData : Type 0 where
  pub f_orig : ℕ
  pub f_new : ℕ
  pub f_stub : ℕ
  pub f_bytes : ℕ

-- Memory: the instruction words, the metadata blocks, and what has been given to `free`.
pub record Store : Type 0 where
  pub word : ℕ → ℕ
  pub block : ℕ → FrrData
  pub freed : List ℕ

-- What the system answers: the two calls of `malloc`, whether each `mprotect` succeeds, and what the
-- external `hw_compare_and_store` does for an old and a new word at an address that holds a word: its
-- result, and the word that the address holds after it.
pub record System : Type 0 where
  pub malloc_data : Option ℕ
  pub malloc_stub : Option ℕ
  pub protect_orig : Bool
  pub protect_stub : Bool
  pub compare_and_store : (old new word : ℕ) → ℕ × ℕ

abbrev pub null : ℕ
null = 0

unfoldable pub free : ℕ → Store → Store
free p s = record s { freed = p ∷ s.freed }

-- A call of `hw_compare_and_store`.
unfoldable pub hw_compare_and_store : System → ℕ → ℕ → ℕ → Store → ℕ × Store
hw_compare_and_store sys old new address s =
    let (ret, w) = sys.compare_and_store old new (s.word address) in
    (ret, record s { word = update s.word address w })

-- The label `ERROR`: both blocks are given back, and the pointer is returned all the same.
unfoldable pub error_exit : ℕ → Store → ℕ × Store
error_exit frr s =
    if frr == null
    then (frr, s)
    else if (s.block frr).f_stub == null
    then (frr, free frr s)
    else (frr, free frr (free (s.block frr).f_stub s))

-- From the second branch on: `original` is overwritten with a branch to `new`.
unfoldable pub reroute : System → ℕ → Store → ℕ × Store
reroute sys frr s =
    let target_address = u32 (s.block frr).f_new / 2 ^ 2 in
    let original = (s.block frr).f_orig in
    if leb 1 (target_address / 2 ^ 25)
    then error_exit frr s
    else let (ret, s') =
        hw_compare_and_store sys (s.word original) (branch_word (absolute_branch target_address))
          original s in
      if ret == 1 then (frr, s') else error_exit frr s'

-- The stub: the first instruction of `original`, and a branch to the second one.
unfoldable pub fill_stub : System → ℕ → Store → ℕ × Store
fill_stub sys frr s =
    let d = s.block frr in
    let saved = record s { block = update s.block frr (record d { f_bytes = s.word d.f_orig }) } in
    let target_address = u32 (d.f_orig + 4) / 2 ^ 2 in
    if leb 1 (target_address / 2 ^ 25)
    then error_exit frr saved
    else let first = update saved.word d.f_stub (s.word d.f_orig) in
      let second = update first (d.f_stub + 4) (branch_word (absolute_branch target_address)) in
      reroute sys frr (record saved { word = second })

-- The calls of `mprotect` on the first word of `original` and on the stub.
unfoldable pub protect : System → ℕ → Store → ℕ × Store
protect sys frr s =
    if not sys.protect_orig
    then error_exit frr s
    else if not sys.protect_stub
    then error_exit frr s
    else fill_stub sys frr s

-- `frr_install`: the pointer that it returns, `null` for none.
unfoldable pub frr_install : System → ℕ → ℕ → Store → ℕ × Store
frr_install sys original new s =
    if leb 1 (u32 new / 2 ^ 25) then error_exit null s else elim sys.malloc_data [
      | none ↦ (null, s)
      | some frr ↦ elim sys.malloc_stub [
        | none ↦ (null, free frr s)
        | some stub ↦ protect sys frr (record s {
          block = update s.block frr (record {
            f_orig = original;
            f_new = new;
            f_stub = stub;
            f_bytes = (s.block frr).f_bytes;
          });
        })
      ]
    ]

-- `frr_remove`: its return value, and the result of the compare-and-store is not looked at.
unfoldable pub frr_remove : System → ℕ → Store → ℤ × Store
frr_remove sys frr s =
    if frr == null
    then (pos 0, s)
    else if not sys.protect_orig
    then (negsuc 0, s)
    else let d = s.block frr in
      let (ret, s') = hw_compare_and_store sys (s.word d.f_orig) d.f_bytes d.f_orig s in
      let s'' = if d.f_stub == null then s' else free d.f_stub s' in (pos 0, free frr s'')
