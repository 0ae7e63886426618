-- ===== src/VolInfo/Tests.antt =====
-- 12-34/getattrlist_volinfo.c at concrete inputs.
use Prim.Native.String.{String}
use mac_os_x_internal.Prelude.{List, ◌↔◌, In, ◌∷◌, []}
use mac_os_x_internal.VolInfo.{Words, print_volume_capabilities}
use mac_os_x_internal.VolInfo.Capabilities.{HasCapability, print_volume_capabilities_iff}

abbrev journal_names : List String
journal_names = "VOL_CAP_FMT_JOURNAL" ∷ "VOL_CAP_FMT_SPARSE_FILES" ∷ []

-- A volume with bits 3 and 4, of which only 3 is valid.
abbrev words : Words
words = record { capabilities = 24; valid = 8 }

print_volume_capabilities_iff_example :
    In "VOL_CAP_FMT_JOURNAL" (print_volume_capabilities (λ name. 8) words journal_names) ↔ (
      In "VOL_CAP_FMT_JOURNAL" journal_names
      × HasCapability (λ name. 8) words "VOL_CAP_FMT_JOURNAL")
print_volume_capabilities_iff_example =
    print_volume_capabilities_iff (λ name. 8) words journal_names "VOL_CAP_FMT_JOURNAL"
