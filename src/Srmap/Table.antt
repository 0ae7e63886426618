-- ===== src/Srmap/Table.antt =====
-- 8-24/srmap.c: what the table of mappings holds.
use mac_os_x_internal.Prelude.{
  ℕ, zero, suc, min, ◌∙◌, ◌+◌, ◌*◌, ◌-◌, ◌≤◌, ◌≡◌, ◌⊎◌, sym, refl, true, false, Option, List, [],
  ◌∷◌, ◌++◌, none, some, ltb, if◌then◌else◌, arith, length, length-append, append_assoc, append-nil,
  u32, All, Option-cases, inl, inr,
}
use mac_os_x_internal.Srmap.{
  main, mapped, no_base, Image, Segment, Prot, Mapping, entries_of, entry_of, zf_entry_of,
  init_prot_of, max_segments, process,
}

-- The segments of the commands from `lc` on, in order.
abbrev pub segments : Image → ℕ → ℕ → List Segment
segments image zero lc = []
segments image (suc n) lc =
    let rest = segments image n (u32 (lc + image.cmdsize_at lc)) in
    elim (image.segment_at lc) [ none ↦ rest | some s ↦ s ∷ rest ]

-- The entry for what the file holds of a segment, and where a writable segment is longer in memory one for the rest of it. A writable
-- segment is copied on write, and the rest is filled with zeros.
abbrev pub expected : Segment → List Mapping
expected s =
    let part : Prot = record {
      read = s.can_read;
      write = s.can_write;
      execute = s.can_execute;
      cow = s.can_write;
      zero_fill = false;
    } in
    let rest : Prot = record {
      read = s.can_read;
      write = true;
      execute = s.can_execute;
      cow = true;
      zero_fill = true;
    } in
    record {
      address = s.vmaddr;
      size = s.filesize;
      file_offset = s.fileoff;
      max_prot = part;
      init_prot = part;
    }
    ∷ (if s.can_write
        then (if ltb s.filesize s.vmsize
            then record {
              address = s.vmaddr + s.filesize;
              size = s.vmsize - s.filesize;
              file_offset = 0;
              max_prot = rest;
              init_prot = rest;
            }
              ∷ []
            else [])
        else [])

-- The entries of some segments.
abbrev pub entries : List Segment → List Mapping
entries [] = []
entries (s ∷ ss) = expected s ++ entries ss

entries_of-expected : (s : Segment) → entries_of s ≡ expected s
unfolding entries_of entry_of zf_entry_of init_prot_of
entries_of-expected s = ground arith

-- The least start of a segment, or `base` if that is less.
abbrev pub lowest : ℕ → List Segment → ℕ
lowest base [] = base
lowest base (s ∷ ss) = lowest (min s.vmaddr base) ss

segments-none :
    (image : Image) (n lc : ℕ)
    → image.segment_at lc ≡ none
    → segments image (suc n) lc ≡ segments image n (u32 (lc + image.cmdsize_at lc))
segments-none image n lc e = rw (e, segments)

segments-some :
    (image : Image) (n lc : ℕ) (s : Segment)
    → image.segment_at lc ≡ some s
    → segments image (suc n) lc ≡ s ∷ segments image n (u32 (lc + image.cmdsize_at lc))
segments-some image n lc s e = rw (e, segments)

process_skip :
    (image : Image) (n lc base : ℕ) (table : List Mapping)
    → image.segment_at lc ≡ none
    → process image (suc n) lc base table
      ≡ process image n (u32 (lc + image.cmdsize_at lc)) base table
unfolding process
process_skip image n lc base table e = rw (process, e) refl

process_segment :
    (image : Image) (n lc base : ℕ) (table : List Mapping) (s : Segment)
    → image.segment_at lc ≡ some s
    → process image (suc n) lc base table ≡ (
        if ltb max_segments (length (table ++ expected s))
        then none
        else process image n
            (u32 (lc + image.cmdsize_at lc))
            (min s.vmaddr base)
            (table ++ expected s))
unfolding process
process_segment image n lc base table s e =
    let least : (if ltb s.vmaddr base then s.vmaddr else base) ≡ min s.vmaddr base = ground arith in
    rw (process, e, least, entries_of-expected s) refl

-- What the loop leaves: nothing if the entries do not fit.
abbrev pub fitting : ℕ → List Mapping → Option (ℕ × List Mapping)
fitting base table = if ltb max_segments (length table) then none else some (base, table)

process_fits :
    (image : Image) (n lc base : ℕ) (table : List Mapping) (s : Segment)
    → image.segment_at lc ≡ some s
    → let next = u32 (lc + image.cmdsize_at lc) in
      let ss = segments image n next in
      let longer = table ++ expected s in
      (length longer ≤ max_segments
        → process image n next (min s.vmaddr base) longer
          ≡ fitting (lowest (min s.vmaddr base) ss) (longer ++ entries ss))
      → process image (suc n) lc base table
        ≡ fitting (lowest (min s.vmaddr base) ss) (table ++ (expected s ++ entries ss))
process_fits image n lc base table s e goes_on =
    let ss = segments image n (u32 (lc + image.cmdsize_at lc)) in
    rw
      (
        process_segment image n lc base table s e,
        sym (append_assoc table (expected s) (entries ss)),
      )
      (ground (arith, goes_on, length-append (table ++ expected s) (entries ss)))

pub process_lem :
    (image : Image) (n lc base : ℕ) (table : List Mapping)
    → length table ≤ max_segments
    → process image n lc base table
      ≡ fitting (lowest base (segments image n lc)) (table ++ entries (segments image n lc))
unfolding process
process_lem image zero lc base table fits = rw append-nil (ground arith)
process_lem image (suc n) lc base table fits = elim (Option-cases (image.segment_at lc)) [
  | inl nothing ↦
      process_skip image n lc base table nothing
      ∙ rw (segments-none image n lc nothing)
          (process_lem image n (u32 (lc + image.cmdsize_at lc)) base table fits)
  | inr (s, e) ↦ rw (segments-some image n lc s e) (
      process_fits image n lc base table s e (
        process_lem image n (u32 (lc + image.cmdsize_at lc)) (min s.vmaddr base)
          (table ++ expected s)))
]

length-segments-le : (image : Image) (n lc : ℕ) → length (segments image n lc) ≤ n
length-segments-le image zero lc = omega arith
length-segments-le image (suc n) lc = elim (Option-cases (image.segment_at lc)) [
  | inl nothing ↦
      rw (segments-none image n lc nothing)
        (omega (arith, length-segments-le image n (u32 (lc + image.cmdsize_at lc))))
  | inr (s, e) ↦
      rw (segments-some image n lc s e)
        (omega (arith, length-segments-le image n (u32 (lc + image.cmdsize_at lc))))
]

expected_bounds : (s : Segment) → (1 ≤ length (expected s)) × (length (expected s) ≤ 2)
expected_bounds s = ground arith

-- One or two entries for each segment.
pub length-entries :
    (ss : List Segment) → (length ss ≤ length (entries ss)) × (length (entries ss) ≤ 2 * length ss)
length-entries [] = omega arith
length-entries (s ∷ ss) =
    omega (arith, length-entries ss, expected_bounds s, length-append (expected s) (entries ss))

-- One of the segments starts there.
abbrev pub Starts : ℕ → List Segment → Type 0
Starts base [] = ⊥
Starts base (s ∷ ss) = (base ≡ s.vmaddr) ⊎ Starts base ss

lowest-Starts :
    (base : ℕ) (ss : List Segment) → (lowest base ss ≡ base) ⊎ Starts (lowest base ss) ss
lowest-Starts base [] = inl refl
lowest-Starts base (s ∷ ss) = ground (arith, lowest-Starts (min s.vmaddr base) ss)

lowest_le :
    (base : ℕ) (ss : List Segment)
    → (lowest base ss ≤ base) × All (λ s. lowest base ss ≤ s.vmaddr) ss
lowest_le base [] = (omega arith, tt)
lowest_le base (s ∷ ss) =
    let (least, rest) = lowest_le (min s.vmaddr base) ss in (omega arith, (omega arith, rest))

-- A file whose header is accepted and whose entries fit into the table of 64 gives the entries of its segments in the order of the load commands,
-- one or two for each. The base address is the least start of a segment, or the greatest 32-bit number if no segment starts below that.
pub main_mapped :
    (image : Image) (base : ℕ) (table : List Mapping)
    → main image ≡ mapped base table
    → let ss = segments image image.ncmds image.header_size in
      (table ≡ entries ss)
      × (length table ≤ max_segments)
      × All (λ s. base ≤ s.vmaddr) ss
      × ((base ≡ no_base) ⊎ Starts base ss)
      × (length ss ≤ length table)
      × (length table ≤ 2 * image.ncmds)
unfolding main
main_mapped image base table e =
    let n = image.ncmds in
    let ss = segments image n image.header_size in
    let all = process_lem image n image.header_size no_base [] (omega arith) in
    let same : base ≡ lowest no_base ss = ground (arith, all) in
    let holds : table ≡ entries ss = ground (arith, all) in
    let fits : length table ≤ max_segments = ground (arith, all) in
    (
      holds,
      fits,
      rw same (lowest_le no_base ss).1,
      rw same (lowest-Starts no_base ss),
      rw holds (length-entries ss).0,
      rw holds (omega (arith, (length-entries ss).1, length-segments-le image n image.header_size)),
    )
