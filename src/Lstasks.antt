-- ===== src/Lstasks.antt =====
-- 7-21/lstasks.c: the options, and the loop over the tasks with its four counters.
pub mod Info
pub mod Output
pub mod Thread
pub mod Count
pub mod Names
mod Tests
use mac_os_x_internal.Prelude.{
  ℕ, zero, suc, ◌+◌, Bool, true, false, not, ◌&&◌, List, [], ◌∷◌, ◌++◌, Option, none, some, ◌==◌,
  leb, ◌||◌, if◌then◌else◌, u32, length,
}
use mac_os_x_internal.Lstasks.Output.{Line, text, num, two}
use mac_os_x_internal.Lstasks.Info.{
  Task, Mode, summary, brief, verbose, head_lines, info_lines, is_bsd, is_carbon,
}
use mac_os_x_internal.Lstasks.Thread.{ThreadInfo, threads_lines}

-- One option of the command line; `p` with the port that `task_for_pid` gives, if it succeeds.
pub data Opt : Type 0 where
  p : Option ℕ → Opt
  s : Opt
  v : Opt
  other : Opt

pub record Choice : Type 0 where
  pub is_summary : Bool
  pub is_verbose : Bool
  pub onetask : ℕ

-- The `getopt` loop; `none` where it exits with status 1.
unfoldable pub parse_options : Choice → List Opt → Option Choice
parse_options c [] = some c
parse_options c (p none ∷ os) = none
parse_options c (p (some port) ∷ os) = parse_options (record c { onetask = port }) os
parse_options c (s ∷ os) = parse_options (record c { is_summary = true }) os
parse_options c (v ∷ os) = parse_options (record c { is_verbose = true }) os
parse_options c (other ∷ os) = none

-- The mode of the run; both options together are refused.
unfoldable pub mode_of : Choice → Option Mode
mode_of c =
    if c.is_summary && c.is_verbose
    then none
    else some (if c.is_verbose then verbose else if c.is_summary then summary else brief)

-- The counters `stat_task`, `stat_proc`, `stat_cpm` and `stat_thread`, of 32 bits.
pub record Stats : Type 0 where
  pub task : ℕ
  pub proc : ℕ
  pub cpm : ℕ
  pub thread : ℕ

abbrev pub add_if : Bool → ℕ → ℕ
add_if b n = if b then u32 (n + 1) else n

-- The two tests at the head of the loop.
unfoldable pub is_listed : (mytask onetask : ℕ) → Task → Bool
is_listed mytask onetask t = not (t.port == mytask) && (onetask == 0 || t.port == onetask)

-- `Printf`: nothing in a summary.
abbrev pub shown : Mode → List Line → List Line
shown summary lines = []
shown brief lines = lines
shown verbose lines = lines

-- The number of threads in its column, or with the lines of each thread.
unfoldable pub counted_lines : Mode → List (Option ThreadInfo) → List Line
counted_lines verbose ts = num "Threads in this task" (length ts) ∷ threads_lines 0 (length ts) ts
counted_lines brief ts = num "#threads" (length ts) ∷ []
counted_lines summary ts = []

-- From the label `do_threads` on.
unfoldable pub do_threads : Mode → Task → Stats → Stats × List Line
do_threads mode t st = elim t.threads [
  | none ↦ (st, [])
  | some ts ↦ (record st { thread = u32 (st.thread + length ts) }, counted_lines mode ts)
]

-- The body of the loop for task `i`.
unfoldable pub list_task : Mode → (mytask onetask i : ℕ) → Task → Stats → Stats × List Line
list_task mode mytask onetask i t st =
    let counted = record st {
      task = u32 (st.task + 1);
      proc = add_if (is_bsd t) st.proc;
      cpm = add_if (is_carbon t) st.cpm;
    } in
    let head = shown mode (head_lines mode i t) in
    let (all, threads) = do_threads mode t counted in
    if not (is_listed mytask onetask t) then (st, []) else elim mode [
      | verbose ↦ elim t.basic [
        | none ↦ (counted, head)
        | some b ↦ (all, head ++ info_lines t b ++ threads)
      ]
      | _ ↦ (all, head ++ threads)
    ]

-- The loop over the tasks from index `i` on.
unfoldable pub list_tasks : Mode → (mytask onetask i : ℕ) → List Task → Stats → Stats × List Line
list_tasks mode mytask onetask i [] st = (st, [])
list_tasks mode mytask onetask i (t ∷ ts) st =
    let (st', lines) = list_task mode mytask onetask i t st in
    let (st'', later) = list_tasks mode mytask onetask (i + 1) ts st' in (st'', lines ++ later)

-- The calls before the loop that may fail: two for the processor set, and the list of the tasks.
pub record Host : Type 0 where
  pub mytask : ℕ
  pub default_ok : Bool
  pub priv_ok : Bool
  pub tasks : Option (List Task)

abbrev pub no_stats : Stats
no_stats = record { task = 0; proc = 0; cpm = 0; thread = 0 }

-- The heading of the table, which is printed unless the run is verbose.
abbrev pub summary_header : Mode → List Line
summary_header verbose = []
summary_header mode =
    shown mode (text "task#   BSD pid program         PSN (high)   PSN (low)    #threads" ∷ [])

-- `main`: the final counters and the lines, an empty one last; `none` where it exits with status 1.
unfoldable pub main : Host → List Opt → Option (Stats × List Line)
main host options =
    elim (parse_options (record { is_summary = false; is_verbose = false; onetask = 0 }) options) [
      | none ↦ none
      | some c ↦ elim (mode_of c) [
        | none ↦ none
        | some mode ↦ if not (host.default_ok && host.priv_ok) then none else elim host.tasks [
          | none ↦ none
          | some ts ↦
              let (st, lines) = list_tasks mode host.mytask c.onetask 0 ts no_stats in
              some (st, summary_header mode ++ lines ++ shown mode (text "" ∷ []))
        ]
      ]
    ]
