-- ===== src/Kdebug/Decode.antt =====
-- 6-29/kdebug.c: what is printed of an entry of the trace buffer.
use Prim.Native.String.{String}
use mac_os_x_internal.Prelude.{ℕ, ◌*◌, ◌/◌, ◌%◌, ◌^◌, Bool, Option, none, some, ◌==◌, if◌then◌else◌}

-- The fields of `kd_buf` that are read.
pub record KdBuf : Type 0 where
  pub timestamp : ℕ
  pub debugid : ℕ
  pub arg5 : ℕ

-- The parts of sys/kdebug.h that are used: the two halves of a time stamp, and the tests of the two
-- function qualifiers.
pub record Masks : Type 0 where
  pub now : ℕ → ℕ
  pub cpu : ℕ → ℕ
  pub func_start : ℕ → Bool
  pub func_end : ℕ → Bool

pub data Qualifier : Type 0 where
  start end plain : Qualifier

pub record Report : Type 0 where
  pub now : ℕ
  pub cpu : ℕ
  pub class_name : Option String
  pub code : ℕ
  pub thread : ℕ
  pub qual : Qualifier

-- `debugid & 0xfffffffc`.
unfoldable pub type_of : ℕ → ℕ
type_of debugid = debugid / 4 * 4

-- `(debugid & 0xff000000) >> 24` of a 32-bit word.
unfoldable pub class_of : ℕ → ℕ
class_of debugid = debugid / 2 ^ 24 % 2 ^ 8

-- `KDBG_CLASS_NAMES`, with the entry that `main` adds.
unfoldable pub class_name_of : ℕ → Option String
class_name_of c =
    if c == 1
    then some "DBG_MACH"
    else if c == 2
    then some "DBG_NETWORK"
    else if c == 3
    then some "DBG_FSYSTEM"
    else if c == 4
    then some "DBG_BSD"
    else if c == 5
    then some "DBG_IOKIT"
    else if c == 6
    then some "DBG_DRIVERS"
    else if c == 7
    then some "DBG_TRACE"
    else if c == 8
    then some "DBG_DLIL"
    else if c == 9
    then some "DBG_SECURITY"
    else if c == 20
    then some "DBG_MISC"
    else if c == 31
    then some "DBG_DYLD"
    else if c == 32
    then some "DBG_QT"
    else if c == 33
    then some "DBG_APPS"
    else if c == 255
    then some "DBG_MIG"
    else none

unfoldable pub report : Masks → KdBuf → Report
report m kd = record {
  now = m.now kd.timestamp;
  cpu = m.cpu kd.timestamp;
  class_name = class_name_of (class_of kd.debugid);
  code = type_of kd.debugid;
  thread = kd.arg5;
  qual = if m.func_start kd.debugid then start else if m.func_end kd.debugid then end else plain;
}
