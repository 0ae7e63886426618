-- ===== src/Lstasks/Count.antt =====
-- 7-21/lstasks.c: what the four counters count, and what a summary prints.
use mac_os_x_internal.Prelude.{
  ℕ, zero, suc, pos, negsuc, ◌==◌, ◌+◌, ◌≡◌, arith, refl, Bool, true, false, ◌&&◌, List, [], ◌∷◌,
  ◌++◌, none, some, if◌then◌else◌, u32, length, Bool-cases, inl, inr, Option-cases,
}
use mac_os_x_internal.Lstasks.Output.{Line, text}
use mac_os_x_internal.Lstasks.{
  Stats, Host, Opt, Choice, main, parse_options, mode_of, counted_lines, summary_header, shown,
  list_task, list_tasks, is_listed, do_threads, add_if, no_stats,
}
use mac_os_x_internal.Lstasks.Info.{Task, Mode, summary, verbose, is_bsd, is_carbon}

-- How many tasks pass a test.
abbrev pub count : (Task → Bool) → List Task → ℕ
count test [] = 0
count test (t ∷ ts) = (if test t then 1 else 0) + count test ts

abbrev pub threads_of : Task → ℕ
threads_of t = elim t.threads [ none ↦ 0 | some ts ↦ length ts ]

-- The tasks the program is to tell of: not its own, and only the chosen one if there is a choice.
abbrev pub is_chosen : (mytask onetask : ℕ) → Task → Bool
is_chosen mytask onetask t =
    if t.port == mytask
    then false
    else if onetask == 0
    then true
    else if t.port == onetask
    then true
    else false

-- A positive process id, which is known for the task.
abbrev pub has_process : Task → Bool
has_process t =
    if t.pid_ok
    then elim t.pid [ pos zero ↦ false | pos (suc n) ↦ true | negsuc n ↦ false ]
    else false

-- A serial number for a positive process id.
abbrev pub has_carbon : Task → Bool
has_carbon t = elim t.psn [
  | none ↦ false
  | some n ↦ elim t.pid [ pos zero ↦ false | pos (suc n) ↦ true | negsuc n ↦ false ]
]

is_listed-is_chosen :
    (mytask onetask : ℕ) (t : Task) → is_listed mytask onetask t ≡ is_chosen mytask onetask t
unfolding is_listed
is_listed-is_chosen mytask onetask t = ground arith

is_bsd-has_process : (t : Task) → is_bsd t ≡ has_process t
unfolding is_bsd
is_bsd-has_process t = ground arith

is_carbon-has_carbon : (t : Task) → is_carbon t ≡ has_carbon t
unfolding is_carbon
is_carbon-has_carbon t = ground arith

-- The threads of a task that are counted: none where the kernel refuses their list, and none in a verbose run
-- where it refuses the basic information of the task.
abbrev pub counted_threads : Mode → Task → ℕ
counted_threads verbose t = elim t.basic [ none ↦ 0 | some b ↦ threads_of t ]
counted_threads mode t = threads_of t

module _ (mode : Mode) (mytask onetask : ℕ) where
  abbrev pub all_threads : List Task → ℕ
  all_threads [] = 0
  all_threads (t ∷ ts) =
      (if is_chosen mytask onetask t then counted_threads mode t else 0) + all_threads ts

  -- One task adds at most one to each of the first three counters.
  list_task_stats :
      (i : ℕ) (t : Task) (st : Stats)
      → let st' = (list_task mode mytask onetask i t st).0 in
        (is_chosen mytask onetask t ≡ false → st' ≡ st)
        × (is_chosen mytask onetask t ≡ true
            → (st'.task ≡ u32 (st.task + 1))
              × (st'.proc ≡ add_if (has_process t) st.proc)
              × (st'.cpm ≡ add_if (has_carbon t) st.cpm)
              × (u32 st'.thread ≡ u32 (st.thread + counted_threads mode t)))
  unfolding list_task do_threads
  list_task_stats i t st =
      ground
        (arith, is_listed-is_chosen mytask onetask t, is_bsd-has_process t, is_carbon-has_carbon t)

  -- The tests whose passes are counted.
  abbrev pub chosen_process : Task → Bool
  chosen_process t = is_chosen mytask onetask t && has_process t

  abbrev pub chosen_carbon : Task → Bool
  chosen_carbon t = is_chosen mytask onetask t && has_carbon t

  -- The counters after the loop, modulo 2 ^ 32: those before it, and the chosen tasks, those of them with a process, those with a
  -- serial number, and their threads that are counted.
  abbrev pub IsCounted : List Task → Stats → Stats → Type 0
  IsCounted ts st st' =
      (u32 st'.task ≡ u32 (st.task + count (is_chosen mytask onetask) ts))
      × (u32 st'.proc ≡ u32 (st.proc + count chosen_process ts))
      × (u32 st'.cpm ≡ u32 (st.cpm + count chosen_carbon ts))
      × (u32 st'.thread ≡ u32 (st.thread + all_threads ts))

  list_tasks_step :
      (i : ℕ) (t : Task) (ts : List Task) (st : Stats)
      → (list_tasks mode mytask onetask i (t ∷ ts) st).0
        ≡ (list_tasks mode mytask onetask (i + 1) ts (list_task mode mytask onetask i t st).0).0
  unfolding list_tasks
  list_tasks_step i t ts st = refl

  list_task-IsCounted :
      (i : ℕ) (t : Task) (st : Stats)
      → IsCounted (t ∷ []) st (list_task mode mytask onetask i t st).0
  list_task-IsCounted i t st = elim (Bool-cases (is_chosen mytask onetask t)) [
    | inl on ↦ ground (arith, list_task_stats i t st)
    | inr off ↦ ground (arith, list_task_stats i t st)
  ]

  list_tasks-IsCounted :
      (i : ℕ) (ts : List Task) (st : Stats)
      → IsCounted ts st (list_tasks mode mytask onetask i ts st).0
  unfolding list_tasks
  list_tasks-IsCounted i [] st = omega arith
  list_tasks-IsCounted i (t ∷ ts) st =
      let st' = (list_task mode mytask onetask i t st).0 in
      omega (arith, list_task-IsCounted i t st, list_tasks-IsCounted (i + 1) ts st')

-- A summary prints nothing about the tasks.
list_task_silent :
    (mytask onetask i : ℕ) (t : Task) (st : Stats)
    → (list_task summary mytask onetask i t st).1 ≡ []
unfolding list_task do_threads counted_lines
list_task_silent mytask onetask i t st = ground arith

list_tasks_silent :
    (mytask onetask i : ℕ) (ts : List Task) (st : Stats)
    → (list_tasks summary mytask onetask i ts st).1 ≡ []
unfolding list_tasks
list_tasks_silent mytask onetask i [] st = refl
list_tasks_silent mytask onetask i (t ∷ ts) st =
    let st' = (list_task summary mytask onetask i t st).0 in
    rw (list_task_silent mytask onetask i t st, list_tasks_silent mytask onetask (i + 1) ts st')

-- The choice before any option is read.
abbrev pub no_choice : Choice
no_choice = record { is_summary = false; is_verbose = false; onetask = 0 }

-- A run of `main` that does not exit with an error has parsed its options and has found its tasks. In the
-- mode of the options, its final counters are, modulo 2 ^ 32: the number of the chosen tasks (not the
-- program's own, and only the chosen one if there is a choice); of those with a positive process id; of those with a serial number for
-- it; and of the threads of the chosen tasks, without those of a task whose list of threads is refused or, in a verbose run, whose basic
-- information is refused. In a summary it prints no line before the totals.
pub main_counts :
    (host : Host) (options : List Opt) (st : Stats) (lines : List Line)
    → main host options ≡ some (st, lines)
    → (c : Choice) × (mode : Mode) × (ts : List Task) × (parse_options no_choice options ≡ some c)
      × (mode_of c ≡ some mode)
      × (host.tasks ≡ some ts)
      × IsCounted mode host.mytask c.onetask ts no_stats st
      × (mode ≡ summary → lines ≡ [])
unfolding main
main_counts host options st lines e = elim (Option-cases (parse_options no_choice options)) [
  | inl error ↦ absurd (cc (rw (error, main) at e))
  | inr (c, p) ↦ elim (Option-cases (mode_of c)) [
    | inl error ↦ absurd (cc (rw (p, error, main) at e))
    | inr (mode, m) ↦ elim (Option-cases host.tasks) [
      | inl error ↦ absurd (ground (arith, p, m, error))
      | inr (ts, found) ↦
          let r = list_tasks mode host.mytask c.onetask 0 ts no_stats in
          let result : (st ≡ r.0)
              × (lines ≡ summary_header mode ++ r.1 ++ shown mode (text "" ∷ [])) =
            ground (arith, p, m, found) in
          (
            c,
            mode,
            ts,
            p,
            m,
            found,
            rw result.0 (list_tasks-IsCounted mode host.mytask c.onetask 0 ts no_stats),
            λ same. rw (result.1, same, list_tasks_silent host.mytask c.onetask 0 ts no_stats) refl,
          )
    ]
  ]
]
