-- ===== src/Chud/Serving.antt =====
-- 6-32/CHUDSyscallExtension.c: whom the callback serves.
use mac_os_x_internal.Prelude.{
  ℕ, ◌≡◌, ◌≢◌, Bool, true, false, List, [], ◌∷◌, Option, none, some, arith, refl, update, ◌⊎◌,
  subst, sym,
}
use mac_os_x_internal.Chud.{
  Callback, callback_func_example, run_callback, Store, set_callback_func, set_ppc_calls, Caller,
  outside, in_wrapper, copying, crashed, returned, State, ppc_syscall_callback_enter,
  ppc_syscall_callback_cancel, ppc_sys_call_kext_start, ppc_sys_call_kext_stop, initial, store,
  extension_step, take_store, unload, callback_wrapper, Step, extension, unloading, calling, Reach,
  here, next, kern_success, kern_failure,
}

-- The pending stores of a start, with what the stores that are done have left.
abbrev pub IsStarted : List Store → Option Callback → Bool → Type 0
IsStarted pending func set =
    ((pending ≡ set_callback_func (some callback_func_example) ∷ set_ppc_calls true ∷ [])
      × (func ≡ none)
      × (set ≡ false))
    ⊎ ((pending ≡ set_ppc_calls true ∷ []) × (func ≡ some callback_func_example) × (set ≡ false))
    ⊎ ((pending ≡ set_callback_func (some callback_func_example) ∷ [])
        × (func ≡ none)
        × (set ≡ true))
    ⊎ ((pending ≡ []) × (func ≡ some callback_func_example) × (set ≡ true))

abbrev pub IsStopped : List Store → Option Callback → Bool → Type 0
IsStopped pending func set =
    (pending ≡ set_callback_func none ∷ set_ppc_calls false ∷ [])
    ⊎ ((pending ≡ set_ppc_calls false ∷ []) × (func ≡ none))
    ⊎ ((pending ≡ set_callback_func none ∷ []) × (set ≡ false))
    ⊎ ((pending ≡ []) × (func ≡ none) × (set ≡ false))

-- A call past the test of `callback_func` finds the callback; what a call returns is one of the two codes.
pub IsServed : Option Callback → Caller → Type 0
IsServed func outside = Unit
IsServed func in_wrapper = Unit
IsServed func copying = func ≡ some callback_func_example
IsServed func crashed = ⊥
IsServed func (returned none) = Unit
IsServed func (returned (some code)) = (code ≡ kern_success) ⊎ (code ≡ kern_failure)

pub record IsSound (s : State) : Type 0 where
  pub started : s.stopping ≡ false → IsStarted s.pending s.callback_func s.ppc_calls
  pub stopped : s.stopping ≡ true → IsStopped s.pending s.callback_func s.ppc_calls
  pub served : s.stopping ≡ false → (i : ℕ) → IsServed s.callback_func (s.caller i)

extension_step-IsSound :
    (s t : State) (second : Bool) → extension_step second s ≡ some t → IsSound s → IsSound t
unfolding extension_step take_store store IsServed
extension_step-IsSound s t second e sound = ground arith

unload-IsSound : (s t : State) → unload s ≡ some t → IsSound s → IsSound t
unfolding unload ppc_sys_call_kext_stop ppc_syscall_callback_cancel
unload-IsSound s t e sound = ground arith

callback_wrapper-IsSound :
    (s t : State) (ssp : Bool) (i : ℕ) → callback_wrapper ssp i s ≡ some t → IsSound s → IsSound t
unfolding callback_wrapper run_callback IsServed
callback_wrapper-IsSound s t ssp i e sound = ground arith

Step-IsSound : (s t : State) → Step s t → IsSound s → IsSound t
Step-IsSound s t (extension second e) sound = extension_step-IsSound s t second e sound
Step-IsSound s t (unloading e) sound = unload-IsSound s t e sound
Step-IsSound s t (calling ssp i e) sound = callback_wrapper-IsSound s t ssp i e sound

initial-IsSound : IsSound initial
unfolding ppc_sys_call_kext_start ppc_syscall_callback_enter IsServed
initial-IsSound = ground arith

Reach-kept : (s : State) → Reach initial s → IsSound s
Reach-kept s here = initial-IsSound
Reach-kept s (next {t} before step) = Step-IsSound t s step (Reach-kept t before)

-- An extension that stops does not start again.
stopping-kept : (s t : State) → Step s t → s.stopping ≡ true → t.stopping ≡ true
unfolding extension_step take_store store unload callback_wrapper
stopping-kept s t (extension second e) stopping = ground arith
stopping-kept s t (unloading e) stopping = ground arith
stopping-kept s t (calling ssp i e) stopping = ground arith

-- What a call that begins after the start can be.
pub IsAnswered : Caller → Type 0
IsAnswered (returned (some code)) = code ≡ kern_success
IsAnswered other = Unit

-- The start is over, and call `i` is answered by the callback if at all.
pub record IsSettled (i : ℕ) (s : State) : Type 0 where
  pub over : s.pending ≡ []
  pub pointer : s.callback_func ≡ some callback_func_example
  pub answered : IsAnswered (s.caller i)

Step-IsSettled :
    (i : ℕ) (s t : State) → Step s t → t.stopping ≡ false → IsSettled i s → IsSettled i t
unfolding extension_step take_store store unload callback_wrapper run_callback IsAnswered
Step-IsSettled i s t (extension second e) runs settled = ground arith
Step-IsSettled i s t (unloading e) runs settled = ground arith
Step-IsSettled i s t (calling ssp j e) runs settled = ground arith

Reach-IsSettled :
    (i : ℕ) (s t : State) → Reach s t → t.stopping ≡ false → IsSettled i s → IsSettled i t
Reach-IsSettled i s t here runs settled = settled
Reach-IsSettled i s t (next {t = u} before step) runs settled =
    let still : u.stopping ≡ false = ground (arith, stopping-kept u t step) in
    Step-IsSettled i u t step runs (Reach-IsSettled i s u before still settled)

Reach-running : (s t : State) → Reach s t → t.stopping ≡ false → s.stopping ≡ false
Reach-running s t here runs = runs
Reach-running s t (next {t = u} before step) runs =
    Reach-running s u before (ground (arith, stopping-kept u t step))

Reach-both : (r s t : State) → Reach r s → Reach s t → Reach r t
Reach-both r s t before here = before
Reach-both r s t before (next {t = u} later step) = next (Reach-both r s u before later) step

-- Whatever the order of the stores of the extension and of the steps of the system calls: until the extension is told to stop, no
-- call goes to address 0, what a call returns is `KERN_SUCCESS` or `KERN_FAILURE`, and what a call returns that begins when
-- both stores of the start have taken effect is `KERN_SUCCESS`. Once it has been told to and both stores of the stop have taken effect, both
-- pointers are null.
pub Reach-IsServed :
    (s t : State)
    → Reach initial s
    → Reach s t
    → (t.stopping ≡ false
        → (i : ℕ)
        → (t.caller i ≢ crashed)
          × ((code : ℕ)
              → t.caller i ≡ returned (some code)
              → ((code ≡ kern_success) ⊎ (code ≡ kern_failure))
                × (s.pending ≡ [] → s.caller i ≡ outside → code ≡ kern_success)))
      × (t.stopping ≡ true → t.pending ≡ [] → (t.callback_func ≡ none) × (t.ppc_calls ≡ false))
unfolding IsServed IsAnswered
Reach-IsServed s t first later =
    let sound = Reach-kept t (Reach-both initial s t first later) in
    let sound_first = Reach-kept s first in
    (
      λ runs i. (
        (let served = sound.served runs i in ground arith),
        λ code e. (
          (let served = sound.served runs i in ground arith),
          λ empty begins.
              let started = sound_first.started (Reach-running s t later runs) in
              let settled : IsSettled i s = record {
                over = empty;
                pointer = ground arith;
                answered = subst IsAnswered (sym begins) tt;
              } in
              let kept = (Reach-IsSettled i s t later runs settled).answered in ground arith,
        ),
      ),
      λ stopping empty. (let stopped = sound.stopped stopping in ground arith),
    )

-- A system call can be refused while the extension starts: it sees the entry of the table before the callback.
pub start-refused : (t : State) × Reach initial t × (t.caller 0 ≡ returned (some kern_failure))
unfolding extension_step take_store store callback_wrapper ppc_sys_call_kext_start
    ppc_syscall_callback_enter
start-refused =
    let s : State = record initial {
      ppc_calls = true;
      pending = set_callback_func (some callback_func_example) ∷ [];
    } in
    let t : State = record s { caller = update s.caller 0 in_wrapper } in
    let u : State = record t { caller = update t.caller 0 (returned (some kern_failure)) } in
    (
      u,
      next (next (next here (extension true refl)) (calling true 0 refl)) (calling true 0 refl),
      refl,
    )

-- A system call that is past the test when the extension stops can go to address 0.
pub unload-crashed :
    (s : State) (i : ℕ)
    → s.stopping ≡ false
    → s.pending ≡ []
    → s.caller i ≡ copying
    → (t : State) × Reach s t × (t.caller i ≡ crashed)
unfolding unload extension_step take_store callback_wrapper store ppc_sys_call_kext_stop
    ppc_syscall_callback_cancel
unload-crashed s i running empty past =
    let t : State = record s { stopping = true; pending = ppc_syscall_callback_cancel } in
    let u : State = record t { callback_func = none; pending = set_ppc_calls false ∷ [] } in
    let v : State = record u { caller = update s.caller i crashed } in
    let stop : unload s ≡ some t = ground arith in
    let cleared : extension_step false t ≡ some u = refl in
    let called : callback_wrapper true i u ≡ some v = ground arith in
    (
      v,
      next (next (next here (unloading stop)) (extension false cleared)) (calling true i called),
      ground arith,
    )
