-- ===== src/Frr/Demo/Rerouting.antt =====
-- 3-31/frr.c: what the calls of `main` print, and the memory after it.
use mac_os_x_internal.Prelude.{
  ℕ, ◌+◌, ◌%◌, ◌^◌, ◌<◌, ◌≡◌, ◌≢◌, arith, refl, ap, sym, ◌∙◌, ◌/◌, pos, ◌∷◌, ◌++◌, [], true, List,
  some, none,
}
use mac_os_x_internal.Frr.{
  System, Store, frr_install, frr_remove, null, branch_word, absolute_branch,
}
use mac_os_x_internal.Frr.Target.{branch_target, is_absolute_branch, branch_target-near}
use mac_os_x_internal.Frr.Install.{Serves, frr_install_lem, installed, ==-self}
use mac_os_x_internal.Frr.Remove.{frr_remove-frr_install, frr_remove_lem}
use mac_os_x_internal.Frr.Demo.{
  Code, Line, goes_on, is_only, arrive, call, call_function, remove_and_call, install_and_call,
  main, function, function_new, in_function, in_function_new, called_function, called_function_new,
  returned_function, returned_function_new, calling_function_stub, calling_function, clean_state,
  installing_rerouting, rerouting_installed, rerouting_removed, shown,
}

goes_on-none : (w : ℕ) → goes_on w ≡ true → branch_target w ≡ none
unfolding goes_on branch_target is_absolute_branch
goes_on-none w on = ground arith

-- The functions and the stub do not overlap.
pub record IsApart (code : Code) (stub : ℕ) : Type 0 where
  pub new_apart : code.original ≢ code.new
  pub new_apart' : code.original + 4 ≢ code.new
  pub stub_apart : code.original ≢ stub
  pub stub_apart' : code.original ≢ stub + 4
  pub stub_new : stub ≢ code.new
  pub stub_new' : stub + 4 ≢ code.new
  pub stub_second : stub ≢ code.original + 4

-- Not rerouted, a call of `function` gets to it.
pub arrive_function :
    (code : Code) (st : Store)
    → code.original ≢ code.new
    → st.word code.original ≡ code.first
    → goes_on code.first ≡ true
    → arrive 3 code st code.original [] ≡ in_function
unfolding arrive is_only
arrive_function code st apart holds plain =
    let no_branch = goes_on-none code.first plain in ground (arith, no_branch)

-- Rerouted, it gets to `function_new`.
pub arrive_new :
    (code : Code) (st : Store)
    → code.original ≢ code.new
    → branch_target (st.word code.original) ≡ some code.new
    → code.original + 4 ≢ code.new
    → arrive 3 code st code.original [] ≡ in_function_new
unfolding arrive is_only
arrive_new code st apart away apart' = ground arith

-- A call of the stub gets to `function` with its first instruction run.
pub arrive_stub :
    (code : Code) (st : Store) (stub : ℕ)
    → IsApart code stub
    → st.word stub ≡ code.first
    → goes_on code.first ≡ true
    → branch_target (st.word (stub + 4)) ≡ some (code.original + 4)
    → arrive 3 code st stub [] ≡ in_function
unfolding arrive is_only
arrive_stub code st stub apart holds plain back =
    let no_branch = goes_on-none code.first plain in
    ground (arith, no_branch, apart.stub_new, apart.stub_new', apart.stub_second, apart.stub_apart)

-- What `main` prints for a call that runs `function`, and for one that runs `function_new` and the stub.
abbrev pub plain_lines : List Line
plain_lines = called_function 2 "Hello, World!" ∷ returned_function 3 2 "Hello, World!" ∷ []

abbrev pub rerouted_lines : List Line
rerouted_lines =
    called_function_new 2 "Hello, World!"
    ∷ calling_function_stub
    ∷ called_function 2 "Hello, World!"
    ∷ returned_function 3 2 "Hello, World!"
    ∷ returned_function_new 3 2 "Hello, World!"
    ∷ []

abbrev pub plain_call : Line → List Line
plain_call heading = heading ∷ calling_function ∷ plain_lines

pub call_function-plain :
    (code : Code) (st : Store) (function_stub : ℕ) (heading : Line)
    → arrive 3 code st code.original [] ≡ in_function
    → call_function code function_stub heading st ≡ some (plain_call heading)
unfolding call_function call function shown
call_function-plain code st function_stub heading arrives = ground arith

pub call_function-rerouted :
    (code : Code) (st : Store) (function_stub : ℕ) (heading : Line)
    → arrive 3 code st code.original [] ≡ in_function_new
    → arrive 3 code st function_stub [] ≡ in_function
    → function_stub ≢ null
    → call_function code function_stub heading st
      ≡ some (heading ∷ calling_function ∷ rerouted_lines)
unfolding call_function call function function_new shown
call_function-rerouted code st function_stub heading arrives arrives_stub some_stub =
    ground (arith, arrives, arrives_stub)

module _ (sys : System) (code : Code) (frr stub : ℕ) (serves : Serves sys frr stub) where
  remove_and_call_lem :
      (t : Store)
      → t.block frr
        ≡ record { f_orig = code.original; f_new = code.new; f_stub = stub; f_bytes = code.first }
      → frr ≢ null
      → stub ≢ null
      → code.original ≢ code.new
      → goes_on code.first ≡ true
      → remove_and_call sys code frr stub t
        ≡ some (pos 0, plain_call rerouting_removed, (frr_remove sys frr t).1)
  unfolding remove_and_call
  remove_and_call_lem t e some_frr some_stub apart plain =
      let u = (frr_remove sys frr t).1 in
      let removed =
        frr_remove_lem sys frr t serves.protect_orig serves.stores some_frr (rw e some_stub) in
      let holds : u.word code.original ≡ code.first = rw (removed, e, ==-self code.original) refl in
      let returned : (frr_remove sys frr t).0 ≡ pos 0 = ap (λ r. r.0) removed in
      let called =
        call_function-plain code u stub rerouting_removed
          (arrive_function code u apart holds plain) in
      ground (arith, returned, called)

  -- The memory while the function is rerouted.
  rerouted-lines :
      (s : Store)
      → code.original + 4 < 2 ^ 25
      → code.new < 2 ^ 25
      → code.original % 4 ≡ 0
      → code.new % 4 ≡ 0
      → IsApart code stub
      → s.word code.original ≡ code.first
      → goes_on code.first ≡ true
      → stub ≢ null
      → call_function code stub rerouting_installed (installed frr code.original code.new stub s)
        ≡ some (rerouting_installed ∷ calling_function ∷ rerouted_lines)
  rerouted-lines s near near_new aligned aligned_new apart holds plain some_stub =
      let t = installed frr code.original code.new stub s in
      let back : t.word (stub + 4) ≡ branch_word (absolute_branch ((code.original + 4) / 2 ^ 2)) =
        ground arith in
      let away : t.word code.original ≡ branch_word (absolute_branch (code.new / 2 ^ 2)) =
        ground arith in
      let saved : t.word stub ≡ code.first = ground arith in
      let to_new =
        arrive_new code t apart.new_apart
          (rw away (branch_target-near code.new near_new aligned_new)) apart.new_apart' in
      let to_function =
        arrive_stub code t stub apart saved plain
          (rw back (branch_target-near (code.original + 4) near (omega arith))) in
      call_function-rerouted code t stub rerouting_installed to_new to_function some_stub

-- What `main` prints from the installation on.
abbrev pub later_lines : List Line
later_lines =
    installing_rerouting ∷ (rerouting_installed ∷ calling_function ∷ rerouted_lines)
    ++ plain_call rerouting_removed

-- All that `main` prints where nothing fails.
abbrev pub demo_lines : List Line
demo_lines = plain_call clean_state ++ later_lines

install_and_call_lem :
    (sys : System) (code : Code) (frr stub : ℕ) (s t u : Store)
    → frr_install sys code.original code.new s ≡ (frr, t)
    → (t.block frr).f_stub ≡ stub
    → frr ≢ null
    → call_function code stub rerouting_installed t
      ≡ some (rerouting_installed ∷ calling_function ∷ rerouted_lines)
    → remove_and_call sys code frr stub t ≡ some (pos 0, plain_call rerouting_removed, u)
    → install_and_call sys code s ≡ some (pos 0, later_lines, u)
unfolding install_and_call
install_and_call_lem sys code frr stub s t u done stub_lem some_frr second third = ground arith

main_lem :
    (sys : System) (code : Code) (s u : Store)
    → call_function code null clean_state s ≡ some (plain_call clean_state)
    → install_and_call sys code s ≡ some (pos 0, later_lines, u)
    → main sys code s ≡ some (pos 0, demo_lines, u)
unfolding main
main_lem sys code s u first rest = ground arith

module _ (sys : System) (code : Code) (frr stub : ℕ) (s : Store) where
  -- Where every call succeeds, the two functions lie at word addresses below 2 ^ 25 and the stub apart from
  -- them, no block is null, and the first instruction of `function` neither jumps nor traps, so that it can be run elsewhere, and
  -- does not fault, `main` returns 0. Its first call of `function` runs `function` alone, its second one
  -- runs `function_new`, which runs `function` by the stub and returns what that returns, and its third
  -- one runs `function` alone again. Every word outside the stub is then as it was, and both
  -- blocks have been freed.
  pub main_rerouted :
      Serves sys frr stub
      → code.original + 4 < 2 ^ 25
      → code.new < 2 ^ 25
      → code.original % 4 ≡ 0
      → code.new % 4 ≡ 0
      → IsApart code stub
      → s.word code.original ≡ code.first
      → goes_on code.first ≡ true
      → frr ≢ null
      → stub ≢ null
      → let u = (frr_remove sys frr (frr_install sys code.original code.new s).1).1 in
        (main sys code s ≡ some (pos 0, demo_lines, u))
        × ((a : ℕ) → a ≢ stub → a ≢ stub + 4 → u.word a ≡ s.word a)
        × (u.freed ≡ frr ∷ stub ∷ s.freed)
  main_rerouted serves near near_new aligned aligned_new apart holds plain some_frr some_stub =
      let t = installed frr code.original code.new stub s in
      let done = frr_install_lem sys frr code.original code.new stub s serves near near_new in
      let restored =
        frr_remove-frr_install sys code.original code.new frr stub s serves near near_new
          apart.stub_apart apart.stub_apart' some_frr some_stub in
      let first =
        call_function-plain code s null clean_state
          (arrive_function code s apart.new_apart holds plain) in
      let second =
        rerouted-lines sys code frr stub serves s near near_new aligned aligned_new apart holds
          plain some_stub in
      let third =
        remove_and_call_lem sys code frr stub serves t (rw (==-self frr, holds) refl) some_frr
          some_stub apart.new_apart plain in
      let stub_lem : (t.block frr).f_stub ≡ stub = rw (==-self frr) refl in
      let rest =
        install_and_call_lem sys code frr stub s t (frr_remove sys frr t).1 done stub_lem some_frr
          second third in
      let u = (frr_remove sys frr (frr_install sys code.original code.new s).1).1 in
      let same : (frr_remove sys frr t).1 ≡ u = ap (λ r. (frr_remove sys frr r.1).1) (sym done) in
      (
        main_lem sys code s u first (rest ∙ ap (λ v. some (pos 0, later_lines, v)) same),
        restored.1,
        restored.2,
      )
