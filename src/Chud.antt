-- ===== src/Chud.antt =====
-- 6-32/CHUDSyscallExtension.c: a kernel extension that registers a callback for a system call. The two stores of the registration and those of its cancellation
-- are single steps in either order, between which other processors run system calls.
pub mod Serving
mod Tests
use mac_os_x_internal.Prelude.{
  ℕ, ◌≡◌, Bool, true, false, not, List, [], ◌∷◌, Option, none, some, ◌==◌, if◌then◌else◌, update,
}

abbrev pub kern_success : ℕ
kern_success = 0

abbrev pub kern_failure : ℕ
kern_failure = 5

-- A function that `callback_func` can point to.
pub data Callback : Type 0 where
  callback_func_example : Callback

-- What a callback returns.
unfoldable pub run_callback : Callback → ℕ
run_callback callback_func_example = kern_success

-- A store to `callback_func`, or to `PPCcalls[9]`: whether that is `callback_wrapper` or null.
pub data Store : Type 0 where
  set_callback_func : Option Callback → Store
  set_ppc_calls : Bool → Store

-- A system call: not begun; in `callback_wrapper`; past its test of `callback_func`; returned, with what it has put in `save_r3`, if anything; or gone to
-- address 0.
pub data Caller : Type 0 where
  outside in_wrapper copying crashed : Caller
  returned : (save_r3 : Option ℕ) → Caller

-- `pending` are the stores that the extension has still to do.
pub record State : Type 0 where
  pub callback_func : Option Callback
  pub ppc_calls : Bool
  pub pending : List Store
  pub stopping : Bool
  pub caller : ℕ → Caller

unfoldable pub ppc_syscall_callback_enter : Callback → List Store
ppc_syscall_callback_enter func = set_callback_func (some func) ∷ set_ppc_calls true ∷ []

unfoldable pub ppc_syscall_callback_cancel : List Store
ppc_syscall_callback_cancel = set_callback_func none ∷ set_ppc_calls false ∷ []

unfoldable pub ppc_sys_call_kext_start : List Store
ppc_sys_call_kext_start = ppc_syscall_callback_enter callback_func_example

unfoldable pub ppc_sys_call_kext_stop : List Store
ppc_sys_call_kext_stop = ppc_syscall_callback_cancel

-- The extension has been loaded, and is about to start.
abbrev pub initial : State
initial = record {
  callback_func = none;
  ppc_calls = false;
  pending = ppc_sys_call_kext_start;
  stopping = false;
  caller = λ i. outside;
}

unfoldable pub store : Store → State → State
store (set_callback_func func) s = record s { callback_func = func }
store (set_ppc_calls set) s = record s { ppc_calls = set }

-- One of the stores that are left, and the others: the barriers stand behind both, so that either can take effect first.
unfoldable pub take_store : (second : Bool) → List Store → Option (Store × List Store)
take_store second [] = none
take_store second (a ∷ []) = some (a, [])
take_store false (a ∷ b ∷ rest) = some (a, b ∷ rest)
take_store true (a ∷ b ∷ rest) = some (b, a ∷ rest)

-- A store of the extension takes effect.
unfoldable pub extension_step : (second : Bool) → State → Option State
extension_step second s = elim (take_store second s.pending) [
  | none ↦ none
  | some (taken, rest) ↦ some (record (store taken s) { pending = rest })
]

-- The extension is told to stop, which it is once, after it has started.
unfoldable pub unload : State → Option State
unload s = elim s.pending [
  | [] ↦
      if s.stopping
      then none
      else some (record s { pending = ppc_sys_call_kext_stop; stopping = true })
  | next ∷ rest ↦ none
]

-- A system call goes on, `none` where the extension has no part in it. `callback_wrapper` reads `callback_func` twice: for its test, and for the call.
unfoldable pub callback_wrapper : (ssp : Bool) → (i : ℕ) → State → Option State
callback_wrapper ssp i s = elim (s.caller i) [
  | outside ↦
      if s.ppc_calls then some (record s { caller = update s.caller i in_wrapper }) else none
  | in_wrapper ↦
      if not ssp
      then some (record s { caller = update s.caller i (returned none) })
      else elim s.callback_func [
        | none ↦ some (record s { caller = update s.caller i (returned (some kern_failure)) })
        | some func ↦ some (record s { caller = update s.caller i copying })
      ]
  | copying ↦ elim s.callback_func [
    | none ↦ some (record s { caller = update s.caller i crashed })
    | some func ↦
        some (record s { caller = update s.caller i (returned (some (run_callback func))) })
  ]
  | crashed ↦ none
  | returned save_r3 ↦ none
]

pub data Step (s : State) (t : State) : Type 0 where
  extension : (second : Bool) → extension_step second s ≡ some t → Step s t
  unloading : unload s ≡ some t → Step s t
  calling : (ssp : Bool) (i : ℕ) → callback_wrapper ssp i s ≡ some t → Step s t

pub data Reach (s : State) : State → Type 0 where
  here : Reach s s
  next : {t u : State} → Reach s t → Step t u → Reach s u
