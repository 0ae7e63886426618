-- ===== src/Stacktrace.antt =====
-- 3-25/stacktrace.c: a program that prints the frames of its own stack.
pub mod Frames
mod Tests
use Prim.Native.String.{String}
use mac_os_x_internal.Prelude.{
  ℕ, zero, suc, ◌+◌, List, [], ◌∷◌, Option, none, some, ◌==◌, if◌then◌else◌, u32,
}

-- The line that `printframeinfo` prints.
pub record Line : Type 0 where
  pub level : ℕ
  pub symbol : String
  pub parentheses : String
  pub image : String
  pub fp : ℕ
  pub pc : ℕ

-- `dladdr` of the dynamic linker: the symbol and the image for an address, if it finds them.
abbrev pub Dladdr : Type 0
Dladdr = ℕ → Option (String × String)

unfoldable pub printframeinfo : Dladdr → (level fp ra : ℕ) → Line
printframeinfo dladdr level fp ra = elim (dladdr ra) [
  | none ↦ record { level = level; symbol = "?"; parentheses = ""; image = "?"; fp = fp; pc = ra }
  | some (sname, fname) ↦ record {
    level = level;
    symbol = sname;
    parentheses = "()";
    image = fname;
    fp = fp;
    pc = ra;
  }
]

-- How the loop ends: by its `break`, at a null pointer, by a read at address 0, or, in the model alone, with no fuel.
pub data End : Type 0 where
  last_frame null_frame fault unfinished : End

abbrev pub null : ℕ
null = 0

-- The offset of the saved return address in a frame, two words of 4 bytes.
abbrev pub saved_ra_offset : ℕ
saved_ra_offset = 8

-- The loop of `stacktrace`, on a memory of words.
unfoldable pub walk : (fuel : ℕ) → Dladdr → (ℕ → ℕ) → (level fp : ℕ) → List Line × End
walk zero dladdr memory level fp = ([], unfinished)
walk (suc fuel) dladdr memory level fp =
    let saved_fp = memory fp in
    let saved_ra = memory (saved_fp + saved_ra_offset) in
    let (later, end) = walk fuel dladdr memory (u32 (level + 1)) saved_fp in
    if fp == null
    then ([], null_frame)
    else if saved_fp == null
    then ([], fault)
    else if memory saved_fp == null
    then ([], last_frame)
    else (printframeinfo dladdr level saved_fp saved_ra ∷ later, end)

-- `stacktrace`, for the return address and the frame of its caller.
unfoldable pub stacktrace :
    (fuel : ℕ) → Dladdr → (ℕ → ℕ) → (return_address caller_frame : ℕ) → List Line × End
stacktrace fuel dladdr memory return_address caller_frame =
    let (later, end) = walk fuel dladdr memory 1 caller_frame in
    (printframeinfo dladdr 0 caller_frame return_address ∷ later, end)
