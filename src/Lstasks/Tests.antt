-- ===== src/Lstasks/Tests.antt =====
-- 7-21/lstasks.c at concrete inputs.
use mac_os_x_internal.Prelude.{◌≡◌, refl, List, [], ◌∷◌, true, pos, some, none}
use mac_os_x_internal.Lstasks.{
  Host, Stats, Choice, main, s, parse_options, mode_of, list_tasks, list_task, is_listed,
  do_threads, counted_lines, no_stats,
}
use mac_os_x_internal.Lstasks.Output.{Line}
use mac_os_x_internal.Lstasks.Info.{Task, Mode, summary, is_bsd, is_carbon, head_lines}
use mac_os_x_internal.Lstasks.Count.{main_counts, IsCounted, no_choice}

abbrev shell : Task
shell = record {
  port = 5;
  pid_ok = true;
  pid = pos 80;
  proc_name = "sh";
  psn = none;
  carbon_name = "";
  basic = none;
  thread_times = none;
  absolute = none;
  events = none;
  category = none;
  audit_token = none;
  security_token = none;
  threads = some (none ∷ none ∷ []);
}

abbrev machine : Host
machine = record {
  mytask = 7;
  default_ok = true;
  priv_ok = true;
  tasks = some (shell ∷ record shell { port = 7 } ∷ []);
}

abbrev one_shell : Stats
one_shell = record { task = 1; proc = 1; cpm = 0; thread = 2 }

one_shell_run : main machine (s ∷ []) ≡ some (one_shell, [])
unfolding main parse_options mode_of list_tasks list_task is_listed do_threads counted_lines is_bsd
    is_carbon head_lines
one_shell_run = refl

main_counts_example :
    (c : Choice) × (mode : Mode) × (ts : List Task) × (parse_options no_choice (s ∷ []) ≡ some c)
    × (mode_of c ≡ some mode)
    × (machine.tasks ≡ some ts)
    × IsCounted mode 7 c.onetask ts no_stats one_shell
    × (mode ≡ summary → ◌≡◌ {A = List Line} [] [])
main_counts_example = main_counts machine (s ∷ []) one_shell [] one_shell_run
