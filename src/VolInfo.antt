-- ===== src/VolInfo.antt =====
-- 12-34/getattrlist_volinfo.c: prints the names of the capabilities of a volume.
pub mod Capabilities
mod Tests
use Prim.Native.String.{String}
use mac_os_x_internal.Prelude.{
  ℕ, zero, suc, Bool, true, false, not, ◌&&◌, ◌||◌, List, [], ◌∷◌, ◌++◌, Option, none, some,
  if◌then◌else◌, test_bit,
}

-- `vol_capabilities_format`: the names, whose bits are constants of sys/attr.h.
abbrev pub vol_capabilities_format : List String
vol_capabilities_format =
    "VOL_CAP_FMT_2TB_FILESIZE" ∷ "VOL_CAP_FMT_CASE_PRESERVING" ∷ "VOL_CAP_FMT_CASE_SENSITIVE"
    ∷ "VOL_CAP_FMT_FAST_STATFS" ∷ "VOL_CAP_FMT_HARDLINKS" ∷ "VOL_CAP_FMT_JOURNAL"
    ∷ "VOL_CAP_FMT_JOURNAL_ACTIVE" ∷ "VOL_CAP_FMT_NO_ROOT_TIMES" ∷ "VOL_CAP_FMT_PERSISTENTOBJECTIDS"
    ∷ "VOL_CAP_FMT_SYMBOLICLINKS" ∷ "VOL_CAP_FMT_SPARSE_FILES" ∷ "VOL_CAP_FMT_ZERO_RUNS" ∷ []

abbrev pub vol_capabilities_interfaces : List String
vol_capabilities_interfaces =
    "VOL_CAP_INT_ADVLOCK" ∷ "VOL_CAP_INT_ALLOCATE" ∷ "VOL_CAP_INT_ATTRLIST" ∷ "VOL_CAP_INT_COPYFILE"
    ∷ "VOL_CAP_INT_EXCHANGEDATA" ∷ "VOL_CAP_INT_EXTENDED_SECURITY" ∷ "VOL_CAP_INT_FLOCK"
    ∷ "VOL_CAP_INT_NFSEXPORT" ∷ "VOL_CAP_INT_READDIRATTR" ∷ "VOL_CAP_INT_SEARCHFS"
    ∷ "VOL_CAP_INT_USERACCESS" ∷ "VOL_CAP_INT_VOL_RENAME" ∷ []

-- `a & b` of two words is not zero: one of the lowest `width` bits is set in both.
unfoldable pub has_common_bit : (width : ℕ) → (a b : ℕ) → Bool
has_common_bit zero a b = false
has_common_bit (suc i) a b = (test_bit a i && test_bit b i) || has_common_bit i a b

-- The words that `getattrlist` gives for one of the two tables.
pub record Words : Type 0 where
  pub capabilities : ℕ
  pub valid : ℕ

-- What is printed of a table: the loop of `print_volume_capabilities`.
unfoldable pub print_volume_capabilities : (bits : String → ℕ) → Words → List String → List String
print_volume_capabilities bits words [] = []
print_volume_capabilities bits words (name ∷ names) =
    let later = print_volume_capabilities bits words names in
    if has_common_bit 32 (bits name) words.valid && has_common_bit 32 (bits name) words.capabilities
    then name ∷ later
    else later

-- `main`: its exit status and the lists that it prints, by what `getattrlist` gives.
unfoldable pub main :
    (bits : String → ℕ) (one_argument : Bool) → Option (Words × Words) → ℕ × List (List String)
main bits one_argument none = (1, [])
main bits one_argument (some (format, interfaces)) = if not one_argument then (1, []) else (
  0,
  print_volume_capabilities bits format vol_capabilities_format
      ∷ print_volume_capabilities bits interfaces vol_capabilities_interfaces
      ∷ [],
)
