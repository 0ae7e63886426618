-- ===== src/Kdebug/Tracing.antt =====
-- 6-29/kdebug.c: the kernel is never left tracing.
use mac_os_x_internal.Prelude.{
  ℕ, ◌≡◌, Bool, true, false, List, [], ◌∷◌, ℤ, negsuc, arith, refl, if◌then◌else◌, Bool-cases, inl,
  inr, not, ◌&&◌, ◌∙◌, ltb, ◌==◌,
}
use mac_os_x_internal.Kdebug.{
  State, System, Outcome, running, exited, out_of_fuel, Request, enable, remove, setup, setbuf,
  pidcheck, valcheck, getbuf, readtr, exit_handler, ukdbg_exit, ukdbg_setenable, ukdbg_clear,
  ukdbg_setpidcheck, is_positive, sysctl, ◌>>=◌, request, prepare, sampling, main, Round, sample,
  signal, initial, resume, sample_size,
}
use mac_os_x_internal.Kdebug.Decode.{Masks, Report}
use mac_os_x_internal.Kdebug.Cleanup.{cleaned, exit_handler_lem}

-- Whether the kernel traces after the requests of a log: a request to begin counts if it succeeds, one
-- to end counts in any case.
abbrev pub tracing : List (Request × Bool) → Bool
tracing [] = false
tracing ((enable true, true) ∷ log) = true
tracing ((enable true, false) ∷ log) = tracing log
tracing ((enable false, done) ∷ log) = false
tracing ((remove, done) ∷ log) = tracing log
tracing ((setup, done) ∷ log) = tracing log
tracing ((setbuf n, done) ∷ log) = tracing log
tracing ((pidcheck p c, done) ∷ log) = tracing log
tracing ((valcheck n, done) ∷ log) = tracing log
tracing ((getbuf, done) ∷ log) = tracing log
tracing ((readtr, done) ∷ log) = tracing log

-- Before the handler runs, the flag tells whether the kernel traces.
abbrev pub Agrees : State → Type 0
Agrees s = (tracing s.log ≡ s.trace_enabled) × (s.exiting ≡ false)

-- A program that still runs knows whether it traces, and one that has ended does not trace.
abbrev pub IsQuiet : Outcome → Type 0
IsQuiet (running s) = Agrees s
IsQuiet (exited status s) = tracing s.log ≡ false
IsQuiet out_of_fuel = ⊥

IsQuiet->>= :
    (o : Outcome) (next : State → Outcome)
    → IsQuiet o
    → ((s : State) → Agrees s → IsQuiet (next s))
    → IsQuiet (o >>= next)
IsQuiet->>= (running s) next quiet keeps = keeps s quiet
IsQuiet->>= (exited status s) next quiet keeps = quiet
IsQuiet->>= out_of_fuel next quiet keeps = quiet

tracing-cleaned :
    (sys : System) (s : State)
    → tracing s.log ≡ s.trace_enabled
    → tracing (cleaned sys s).log ≡ false
tracing-cleaned sys s agrees = ground arith

exit_handler-IsQuiet :
    (sys : System) (status : ℕ) (s : State)
    → tracing s.log ≡ s.trace_enabled
    → IsQuiet (exit_handler sys 1 status s)
exit_handler-IsQuiet sys status s agrees =
    rw (exit_handler_lem sys 0 status s) (tracing-cleaned sys s agrees)

resume-IsQuiet :
    (o : Outcome) (next : State → List Report × Outcome)
    → IsQuiet o
    → ((s : State) → Agrees s → IsQuiet (next s).1)
    → IsQuiet (resume o next).1
resume-IsQuiet (running s) next quiet keeps = keeps s quiet
resume-IsQuiet (exited status s) next quiet keeps = quiet
resume-IsQuiet out_of_fuel next quiet keeps = quiet

if-IsQuiet : (b : Bool) (x y : Outcome) → IsQuiet x → IsQuiet y → IsQuiet (if b then x else y)
if-IsQuiet true x y p q = p
if-IsQuiet false x y p q = q

module _ (sys : System) where
  request-IsQuiet :
      (r : Request)
      → ((done : Bool) (log : List (Request × Bool)) → tracing ((r, done) ∷ log) ≡ tracing log)
      → (s : State) → Agrees s
      → IsQuiet (request sys r s)
  unfolding request
  request-IsQuiet r neutral s agrees =
      let still = neutral (sys s.log r) s.log ∙ agrees.0 in
      if-IsQuiet (sys s.log r) _ _ (still, agrees.1)
        (exit_handler-IsQuiet sys 0 (sysctl sys r s).1 still)

  ukdbg_clear-IsQuiet : (s : State) → Agrees s → IsQuiet (ukdbg_clear sys (ukdbg_exit sys) s)
  unfolding ukdbg_clear
  ukdbg_clear-IsQuiet s agrees =
      if-IsQuiet (not (sys s.log remove) && not s.exiting) _ _
        (exit_handler-IsQuiet sys 0 (record (sysctl sys remove s).1 { set_remove_flag = false })
          agrees.0)
        agrees

  ukdbg_setpidcheck-IsQuiet :
      (p : ℤ) (c : Bool) (s : State)
      → Agrees s
      → IsQuiet (ukdbg_setpidcheck sys (ukdbg_exit sys) p c s)
  unfolding ukdbg_setpidcheck
  ukdbg_setpidcheck-IsQuiet p c s agrees =
      if-IsQuiet (not (sys s.log (pidcheck p c)) && not s.exiting) _ _
        (exit_handler-IsQuiet sys 0 (sysctl sys (pidcheck p c) s).1 agrees.0) agrees

  ukdbg_setenable-IsQuiet :
      (s : State) → Agrees s → IsQuiet (ukdbg_setenable sys (ukdbg_exit sys) true s)
  unfolding ukdbg_setenable
  ukdbg_setenable-IsQuiet s agrees = elim (Bool-cases (sys s.log (enable true))) [
    | inl done ↦ rw done (refl, agrees.1)
    | inr error ↦
        rw (error, agrees.1)
          (exit_handler-IsQuiet sys 0
            (record s { log = (enable true, false) ∷ s.log; exiting = false }) agrees.0)
  ]

  prepare-IsQuiet : (code : ℕ) (s : State) → Agrees s → IsQuiet (prepare sys code s)
  unfolding prepare
  prepare-IsQuiet code s agrees =
      IsQuiet->>= _ _
        (IsQuiet->>= _ _
          (IsQuiet->>= _ _
            (IsQuiet->>= _ _
              (IsQuiet->>= _ _ (ukdbg_clear-IsQuiet s agrees)
                (request-IsQuiet (setbuf sample_size) (λ _ _. refl)))
              (request-IsQuiet setup (λ _ _. refl)))
            (λ a h.
              if-IsQuiet (is_positive a.pid) _ _ (ukdbg_setpidcheck-IsQuiet a.pid true a h) h))
          (request-IsQuiet (valcheck code) (λ _ _. refl)))
        ukdbg_setenable-IsQuiet

  sampling-IsQuiet :
      (masks : Masks) (rounds : List Round) (s : State)
      → Agrees s
      → IsQuiet (sampling sys masks rounds s).1
  unfolding sampling
  sampling-IsQuiet masks [] s agrees = agrees
  sampling-IsQuiet masks (signal n ∷ rounds) s agrees = exit_handler-IsQuiet sys n s agrees.0
  sampling-IsQuiet masks (sample kds ∷ rounds) s agrees =
      resume-IsQuiet (request sys getbuf s >>= request sys readtr) _
        (IsQuiet->>= _ _ (request-IsQuiet getbuf (λ _ _. refl) s agrees)
          (request-IsQuiet readtr (λ _ _. refl)))
        (sampling-IsQuiet masks rounds)

-- Whatever the kernel answers and whenever a signal comes in the loop: while `main` runs, its flag tells
-- whether the kernel traces, and when it exits, the kernel has been asked to end every trace that it
-- began. The nested handlers never run out.
pub main-IsQuiet :
    (sys : System) (masks : Masks) (code argc : ℕ) (pid : ℤ) (allocated : Bool)
    (rounds : List Round)
    → IsQuiet (main sys masks code argc pid allocated rounds).1
unfolding main
main-IsQuiet sys masks code argc pid allocated rounds =
    let start = initial (if argc == 2 then pid else negsuc 0) in
    elim (Bool-cases (ltb 2 argc)) [
      | inl many ↦ rw many refl
      | inr few ↦ rw few (elim (Bool-cases allocated) [
        | inl enough ↦ rw enough (
            resume-IsQuiet (prepare sys code start) _ (prepare-IsQuiet sys code start (refl, refl))
              (sampling-IsQuiet sys masks rounds))
        | inr nothing ↦ rw nothing refl
      ])
    ]
