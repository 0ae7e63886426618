-- ===== src/Srmap.antt =====
-- 8-24/srmap.c: the table of mappings for the shared region, from the load commands of a library.
pub mod Table
pub mod Header
mod Tests
use mac_os_x_internal.Prelude.{
  ℕ, zero, suc, ◌+◌, ◌-◌, ◌≤◌, ◌<◌, Bool, true, false, not, ◌&&◌, ◌||◌, List, [], ◌∷◌, ◌++◌, Option,
  none, some, leb, ltb, if◌then◌else◌, ◌==◌, min, u32, length, ◌%◌, ◌^◌,
}

-- A protection: the bits of `vm_prot_t` that the program uses.
pub record Prot : Type 0 where
  pub read : Bool
  pub write : Bool
  pub execute : Bool
  pub cow : Bool
  pub zero_fill : Bool

abbrev pub prot_none : Prot
prot_none = record { read = false; write = false; execute = false; cow = false; zero_fill = false }

-- `struct _shared_region_mapping_np`.
pub record Mapping : Type 0 where
  pub address : ℕ
  pub size : ℕ
  pub file_offset : ℕ
  pub max_prot : Prot
  pub init_prot : Prot

-- The fields of a `segment_command` that are read; its `initprot` by its three bits.
pub record Segment : Type 0 where
  pub vmaddr : ℕ
  pub vmsize : ℕ
  pub fileoff : ℕ
  pub filesize : ℕ
  pub can_read : Bool
  pub can_write : Bool
  pub can_execute : Bool

-- The mapped file: what its header says, and the load command at each offset. `segment_at` is `some`
-- where `cmd` is `LC_SEGMENT`.
pub record Image : Type 0 where
  pub is_magic : Bool
  pub is_dylib : Bool
  pub splits_segments : Bool
  pub ncmds : ℕ
  pub header_size : ℕ
  pub segment_at : ℕ → Option Segment
  pub cmdsize_at : ℕ → ℕ

-- `entry->init_prot`: a writable segment is copied on write.
pub init_prot_of : Segment → Prot
init_prot_of sc =
    let p = if sc.can_execute then record prot_none { execute = true } else prot_none in
    let q = if sc.can_read then record p { read = true } else p in
    if sc.can_write then record q { write = true; cow = true } else q

pub entry_of : Segment → Mapping
entry_of sc = record {
  address = sc.vmaddr;
  size = sc.filesize;
  file_offset = sc.fileoff;
  max_prot = init_prot_of sc;
  init_prot = init_prot_of sc;
}

-- `zf_entry`: the part of the segment that the file does not hold. Its size is a difference of 32-bit
-- numbers, its address a 64-bit sum.
pub zf_entry_of : Segment → Mapping
zf_entry_of sc =
    let p = record (init_prot_of sc) { cow = true; zero_fill = true } in
    record {
      address = sc.vmaddr + sc.filesize;
      size = sc.vmsize - sc.filesize;
      file_offset = 0;
      max_prot = p;
      init_prot = p;
    }

-- What one segment adds to the table.
unfoldable pub entries_of : Segment → List Mapping
entries_of sc =
    if sc.can_write && ltb sc.filesize sc.vmsize
    then entry_of sc ∷ zf_entry_of sc ∷ []
    else entry_of sc ∷ []

abbrev pub max_segments : ℕ
max_segments = 64

-- The loop over the load commands: the base address and the entries, from the command at `lc` on, with
-- `ncmds` commands left; `none` where it writes behind the end of the table, which nothing in the program prevents.
pub process : Image → ℕ → ℕ → ℕ → List Mapping → Option (ℕ × List Mapping)
process image zero lc base table = some (base, table)
process image (suc ncmds) lc base table =
    let next = u32 (lc + image.cmdsize_at lc) in
    elim (image.segment_at lc) [
      | none ↦ process image ncmds next base table
      | some s ↦
          let rest =
            process image ncmds next (if ltb s.vmaddr base then s.vmaddr else base)
              (table ++ entries_of s) in
          if ltb max_segments (length (table ++ entries_of s)) then none else rest
    ]

-- What `main` does with the file once it is mapped; `overflow` where it has written behind the end of its table.
pub data Result : Type 0 where
  not_dylib : Result
  not_split : Result
  overflow : Result
  mapped : (base : ℕ) → (table : List Mapping) → Result

-- `(uintptr_t)ULONG_MAX`.
abbrev pub no_base : ℕ
no_base = 2 ^ 32 - 1

unfoldable pub main : Image → Result
unfolding process
main image =
    if not image.is_magic && not image.is_dylib
    then not_dylib
    else if not image.splits_segments
    then not_split
    else elim (process image image.ncmds image.header_size no_base []) [
      | none ↦ overflow
      | some r ↦ mapped r.0 r.1
    ]
