-- ===== src/Frr/Demo.antt =====
-- 3-31/frr.c: `main` calls `function` before, while and after it is rerouted to `function_new`.
pub mod Rerouting
use Prim.Native.String.{String}
use mac_os_x_internal.Prelude.{
  ℕ, zero, suc, ◌+◌, ◌-◌, ◌%◌, ◌^◌, Bool, true, false, List, [], ◌∷◌, ◌++◌, Option, none, some,
  ◌==◌, ◌&&◌, ◌||◌, leb, not, ◌/◌, if◌then◌else◌, u32, ℤ, pos, negsuc,
}
use mac_os_x_internal.Frr.{System, Store, frr_install, frr_remove, null}
use mac_os_x_internal.Frr.Target.{decode, branch_target}

-- A 32-bit `int`, as its bits.
abbrev pub minus_one : ℕ
minus_one = 2 ^ 32 - 1

-- The lines that `function`, `function_new` and `main` print, a string as it is printed.
pub data Line : Type 0 where
  called_function called_function_new : ℕ → String → Line
  returned_function returned_function_new : (ret i : ℕ) → String → Line
  calling_function_stub function_stub_missing calling_function : Line
  clean_state installing_rerouting rerouting_installed rerouting_removed : Line
  frr_install_failed frr_remove_failed : Line

-- `m`: the string, or what is printed for a null pointer.
unfoldable pub shown : Option String → String
shown none = "(null)"
shown (some s) = s

-- `function`, from its second instruction on.
unfoldable pub function : ℕ → Option String → ℕ × List Line
function i s =
    let ret = u32 (i + 1) in
    (ret, called_function i (shown s) ∷ returned_function ret i (shown s) ∷ [])

-- `function_new` for what a call of `function_stub` does, if the pointer is not null.
unfoldable pub function_new : Option (ℕ × List Line) → ℕ → Option String → ℕ × List Line
function_new none i s = (
  minus_one,
  called_function_new i (shown s)
      ∷ function_stub_missing
      ∷ returned_function_new minus_one i (shown s)
      ∷ [],
)
function_new (some (ret, lines)) i s = (
  ret,
  called_function_new i (shown s) ∷ calling_function_stub ∷ lines
      ++ returned_function_new ret i (shown s) ∷ [],
)

-- Where the two functions lie, and the first instruction of `function` as it was compiled.
pub record Code : Type 0 where
  pub original : ℕ
  pub new : ℕ
  pub first : ℕ

-- The processor goes from the instruction to the one behind it, wherever it stands: its primary opcode is none of those of the branches and the
-- system call (16 to 19, with the branches to a register), and it is no trap (`tdi`, `twi`, `tw`, `td`).
unfoldable pub goes_on : ℕ → Bool
goes_on w =
    let op = (decode w).op in
    let is_jump = leb 16 op && leb op 19 in
    let is_trap = leb 2 op && leb op 3 in
    let is_register_trap = op == 31 && (w / 2 % 2 ^ 10 == 4 || w / 2 % 2 ^ 10 == 68) in
    not (is_jump || (is_trap || is_register_trap))

-- What a call arrives at. `function` is taken up at its second instruction, after its first one.
pub data Entry : Type 0 where
  in_function in_function_new astray : Entry

unfoldable pub is_only : ℕ → List ℕ → Bool
is_only w [] = false
is_only w (v ∷ []) = v == w
is_only w (v ∷ u ∷ vs) = false

-- The instructions from an address on, up to one of the two functions: `run` are those that have run. An absolute branch without a link
-- goes to its target; an instruction that does not jump or trap is taken not to fault either, and goes on to the next one; any other
-- branch leads astray, the relative ones too, which go elsewhere from the stub than from `function`.
unfoldable pub arrive : ℕ → Code → Store → (pc : ℕ) → (run : List ℕ) → Entry
arrive zero code s pc run = astray
arrive (suc fuel) code s pc run =
    let w = s.word pc in
    let passed = arrive fuel code s (pc + 4) (w ∷ run) in
    let taken : Option Entry = elim (branch_target w) [
      | none ↦ none
      | some target ↦ some (arrive fuel code s target run)
    ] in
    if pc == code.original + 4
    then (if is_only code.first run then in_function else astray)
    else if pc == code.new
    then elim run [ [] ↦ in_function_new | w ∷ run ↦ astray ]
    else elim taken [ some entry ↦ entry | none ↦ if goes_on w then passed else astray ]

-- The longest way is the stub's: its two instructions, and then `function`.
abbrev pub steps : ℕ
steps = 3

-- A call of the function at an address, `none` where it does not arrive at one of the two functions or
-- where they call each other more than `depth` times deep.
unfoldable pub call :
    (depth : ℕ)
    → Code
    → Store
    → (function_stub address : ℕ) → ℕ
    → Option String
    → Option (ℕ × List Line)
call zero code st function_stub address i s = none
call (suc depth) code st function_stub address i s =
    let inner = call depth code st function_stub function_stub i s in
    elim (arrive steps code st address []) [
      | in_function ↦ some (function i s)
      | in_function_new ↦
          if function_stub == null
          then some (function_new none i s)
          else elim inner [ none ↦ none | some r ↦ some (function_new (some r) i s) ]
      | astray ↦ none
    ]

abbrev pub arg_i : ℕ
arg_i = 2

abbrev pub arg_s : Option String
arg_s = some "Hello, World!"

-- The call of `function` by `main`: what it prints, where it returns.
unfoldable pub call_function :
    Code → (function_stub : ℕ) → (heading : Line) → Store → Option (List Line)
call_function code function_stub heading st =
    elim (call 2 code st function_stub code.original arg_i arg_s) [
      | none ↦ none
      | some (ret, lines) ↦ some (heading ∷ calling_function ∷ lines)
    ]

-- `main` from the removal on.
unfoldable pub remove_and_call :
    System → Code → (frr function_stub : ℕ) → Store → Option (ℤ × List Line × Store)
remove_and_call sys code frr function_stub st =
    let (ret, st') = frr_remove sys frr st in
    elim ret [
      | pos zero ↦ elim (call_function code function_stub rerouting_removed st') [
        | none ↦ none
        | some lines ↦ some (pos 0, lines, st')
      ]
      | pos (suc n) ↦ some (pos 1, frr_remove_failed ∷ [], st')
      | negsuc n ↦ some (pos 1, frr_remove_failed ∷ [], st')
    ]

-- `main` from the installation on.
unfoldable pub install_and_call : System → Code → Store → Option (ℤ × List Line × Store)
install_and_call sys code st =
    let (frr, st') = frr_install sys code.original code.new st in
    let function_stub = (st'.block frr).f_stub in
    if frr == null
    then some (pos 1, installing_rerouting ∷ frr_install_failed ∷ [], st')
    else elim (call_function code function_stub rerouting_installed st') [
      | none ↦ none
      | some lines ↦ elim (remove_and_call sys code frr function_stub st') [
        | none ↦ none
        | some (ret, later, st'') ↦ some (ret, installing_rerouting ∷ lines ++ later, st'')
      ]
    ]

-- `main`: its exit value, what it prints and the memory after it, `none` where a call does not return.
unfoldable pub main : System → Code → Store → Option (ℤ × List Line × Store)
main sys code st = elim (call_function code null clean_state st) [
  | none ↦ none
  | some lines ↦ elim (install_and_call sys code st) [
    | none ↦ none
    | some (ret, later, st') ↦ some (ret, lines ++ later, st')
  ]
]
