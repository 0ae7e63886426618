-- ===== src/Xattr.antt =====
-- 12-20/xattr.c: sets or removes an extended attribute of a file.
pub mod Setting
mod Tests
use mac_os_x_internal.Prelude.{
  ℕ, zero, suc, ◌+◌, Bool, true, false, not, List, [], ◌∷◌, ◌++◌, Option, none, some, ◌==◌,
  if◌then◌else◌, length, ℤ, pos,
}

-- The character '='.
abbrev pub equals : ℕ
equals = 61

-- What `getopt` gives for "r:s:", with the argument of the option.
pub data Opt : Type 0 where
  opt_r opt_s : (optarg : List ℕ) → Opt
  opt_other : Opt

-- A call that changes an attribute of the file: the bytes of the value end with a null byte.
pub data Call : Type 0 where
  removexattr : (name : List ℕ) → Call
  setxattr : (name value : List ℕ) (size : ℕ) → Call

-- `strchr(optarg, '=')`: what stands before and behind the first '='.
unfoldable pub split_argument : List ℕ → Option (List ℕ × List ℕ)
split_argument [] = none
split_argument (c ∷ optarg) =
    let rest = split_argument optarg in
    if c == equals
    then some ([], optarg)
    else elim rest [ none ↦ none | some (name, value) ↦ some (c ∷ name, value) ]

-- How the program ends: with its usage, status 1, or with the status `ret`, none where that has not been set.
pub data End : Type 0 where
  usage : End
  exits : (ret : Option ℤ) → End

-- The loop of `main` over the options, for what each call returns.
unfoldable pub process_options : (answer : Call → ℤ) → List Opt → (ret : Option ℤ) → List Call × End
process_options answer [] ret = ([], exits ret)
process_options answer (opt_r optarg ∷ opts) ret =
    let call = removexattr optarg in
    let (calls, end) = process_options answer opts (some (answer call)) in (call ∷ calls, end)
process_options answer (opt_s optarg ∷ opts) ret = elim (split_argument optarg) [
  | none ↦ ([], usage)
  | some (name, value) ↦
      let call = setxattr name value (length value + 1) in
      let (calls, end) = process_options answer opts (some (answer call)) in (call ∷ calls, end)
]
process_options answer (opt_other ∷ opts) ret = ([], usage)

-- `main`, where `three_arguments` is `argc == 4`.
unfoldable pub main : (answer : Call → ℤ) (three_arguments : Bool) → List Opt → List Call × End
main answer three_arguments opts =
    if not three_arguments then ([], usage) else process_options answer opts none
