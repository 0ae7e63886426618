-- ===== src/Srmap/Tests.antt =====
-- 8-24/srmap.c at concrete inputs.
use mac_os_x_internal.Prelude.{ℕ, ◌*◌, ◌≤◌, ◌≡◌, ◌⊎◌, refl, [], ◌∷◌, some, true, false, All, length}
use mac_os_x_internal.Srmap.{
  Image, Segment, main, process, no_base, entries_of, entry_of, zf_entry_of, init_prot_of,
}
use mac_os_x_internal.Srmap.Table.{entries, expected, Starts, main_mapped}

abbrev data_segment : Segment
data_segment = record {
  vmaddr = 0xa0000000;
  vmsize = 0x3000;
  fileoff = 0x1000;
  filesize = 0x2000;
  can_read = true;
  can_write = true;
  can_execute = false;
}

abbrev library : ℕ → Image
library n = record {
  is_magic = true;
  is_dylib = false;
  splits_segments = true;
  ncmds = n;
  header_size = 28;
  segment_at = λ _. some data_segment;
  cmdsize_at = λ _. 56;
}

main_mapped_example :
    let table = expected data_segment in
    (table ≡ entries (data_segment ∷ []))
    × (length table ≤ 64)
    × All (λ s. 0xa0000000 ≤ s.vmaddr) (data_segment ∷ [])
    × ((0xa0000000 ≡ no_base) ⊎ Starts 0xa0000000 (data_segment ∷ []))
    × (1 ≤ length table)
    × (length table ≤ 2 * 1)
unfolding main process entries_of entry_of zf_entry_of init_prot_of
main_mapped_example = main_mapped (library 1) 0xa0000000 (expected data_segment) refl
