-- ===== src/Srmap/Header.antt =====
-- 8-24/srmap.c: the checks of the header, the protections, and the size of the table.
use mac_os_x_internal.Prelude.{
  ℕ, ◌+◌, ◌≤◌, ◌<◌, ◌≡◌, ◌≢◌, true, false, List, [], ◌∷◌, arith, length, All,
}
use mac_os_x_internal.Srmap.{
  Image, Segment, Mapping, main, not_dylib, not_split, overflow, entries_of, entry_of, zf_entry_of,
  init_prot_of, no_base, max_segments,
}
use mac_os_x_internal.Srmap.Table.{segments, process_lem, length-entries}

-- The sizes of a run of mappings, each of which must start where the one before it ends.
abbrev pub Spans : ℕ → List Mapping → ℕ → Type 0
Spans start [] end = start ≡ end
Spans start (m ∷ ms) end = (m.address ≡ start) × Spans (start + m.size) ms end

init_prot_of-write :
    (s : Segment) → ((init_prot_of s).write ≡ s.can_write) × ((init_prot_of s).cow ≡ s.can_write)
unfolding init_prot_of
init_prot_of-write s = ground arith

entries_of_writable :
    (s : Segment)
    → s.filesize ≤ s.vmsize
    → s.can_write ≡ true
    → Spans s.vmaddr (entries_of s) (s.vmaddr + s.vmsize)
unfolding entries_of entry_of zf_entry_of
entries_of_writable s fits w = ground arith

entries_of_constant :
    (s : Segment) → s.can_write ≡ false → Spans s.vmaddr (entries_of s) (s.vmaddr + s.filesize)
unfolding entries_of entry_of
entries_of_constant s w = ground arith

abbrev pub Guarded : Segment → Mapping → Type 0
Guarded s m =
    (m.max_prot ≡ m.init_prot) × (m.init_prot.cow ≡ s.can_write) × (m.init_prot.write ≡ s.can_write)

entries_of-Guarded : (s : Segment) → All (Guarded s) (entries_of s)
unfolding entries_of entry_of zf_entry_of
entries_of-Guarded s = ground (arith, init_prot_of-write s)

-- The entries of a segment that is not shorter in memory than in the file cover it without a gap: all of it
-- if it is writable, the bytes of the file if it is not. Each has its greatest protection from the
-- start, and is copied on write exactly if the segment is writable.
pub entries_of_cover :
    (s : Segment)
    → s.filesize ≤ s.vmsize
    → (s.can_write ≡ true → Spans s.vmaddr (entries_of s) (s.vmaddr + s.vmsize))
      × (s.can_write ≡ false → Spans s.vmaddr (entries_of s) (s.vmaddr + s.filesize))
      × All (Guarded s) (entries_of s)
entries_of_cover s fits = (entries_of_writable s fits, entries_of_constant s, entries_of-Guarded s)

-- The header test rejects a file only if it fails both comparisons: a file with the right magic number
-- and split segments is not turned away, although it is no dynamic library.
pub main_no_dylib :
    (image : Image)
    → image.is_magic ≡ true
    → image.is_dylib ≡ false
    → image.splits_segments ≡ true
    → (main image ≢ not_dylib) × (main image ≢ not_split)
unfolding main
main_no_dylib image magic dylib split = ground arith

-- Nothing bounds the table: a file with the right magic number and split segments that has more than 64 segments makes the loop write behind the
-- end of its table.
pub main_overflow :
    (image : Image)
    → image.is_magic ≡ true
    → image.splits_segments ≡ true
    → max_segments < length (segments image image.ncmds image.header_size)
    → main image ≡ overflow
unfolding main
main_overflow image magic split many =
    let n = image.ncmds in
    ground (
      arith,
      process_lem image n image.header_size no_base [] (omega arith),
      length-entries (segments image n image.header_size),
    )
