-- ===== src/Kdebug/Cleanup.antt =====
-- 6-29/kdebug.c: `ukdbg_exit_handler` always ends, and what it asks of the kernel.
use mac_os_x_internal.Prelude.{
  ℕ, suc, ◌≡◌, true, false, List, [], ◌∷◌, ◌++◌, map, arith, refl, if◌then◌else◌,
}
use mac_os_x_internal.Kdebug.{
  State, System, Outcome, running, exited, Request, enable, remove, pidcheck, exit_handler,
  ukdbg_setenable, ukdbg_clear, ukdbg_setpidcheck, is_positive, sysctl,
}

abbrev pub requests : State → List Request
requests s = map (λ p. p.0) s.log

-- The requests of the clean-up, the latest first.
abbrev pub cleanup : State → List Request
cleanup s =
    (if s.set_remove_flag then remove ∷ [] else [])
    ++ (if is_positive s.pid then pidcheck s.pid false ∷ [] else [])
    ++ (if s.trace_enabled then enable false ∷ [] else [])

-- The state after each of the three steps.
abbrev pub disabled : System → State → State
disabled sys s =
    if s.trace_enabled then record (sysctl sys (enable false) s).1 { trace_enabled = false } else s

abbrev pub unchecked : System → State → State
unchecked sys s = if is_positive s.pid then (sysctl sys (pidcheck s.pid false) s).1 else s

abbrev pub removed : System → State → State
removed sys s = if s.set_remove_flag then (sysctl sys remove s).1 else s

abbrev pub cleaned : System → State → State
cleaned sys s = removed sys (unchecked sys (disabled sys (record s { exiting = true })))

module _ (sys : System) (exit : State → Outcome) (s : State) (leaving : s.exiting ≡ true) where
  disabled_lem :
      (if s.trace_enabled then ukdbg_setenable sys exit false s else running s)
      ≡ running (disabled sys s)
  unfolding ukdbg_setenable
  disabled_lem = ground arith

  unchecked_lem :
      (if is_positive s.pid then ukdbg_setpidcheck sys exit s.pid false s else running s)
      ≡ running (unchecked sys s)
  unfolding ukdbg_setpidcheck
  unchecked_lem = ground arith

  removed_lem :
      (if s.set_remove_flag then ukdbg_clear sys exit s else running s) ≡ running (removed sys s)
  unfolding ukdbg_clear
  removed_lem = ground arith

disabled-exiting : (sys : System) (s : State) → s.exiting ≡ true → (disabled sys s).exiting ≡ true
disabled-exiting sys s h = ground arith

unchecked-exiting : (sys : System) (s : State) → s.exiting ≡ true → (unchecked sys s).exiting ≡ true
unchecked-exiting sys s h = ground arith

pub exit_handler_lem :
    (sys : System) (depth status : ℕ) (s : State)
    → exit_handler sys (suc depth) status s ≡ exited status (cleaned sys s)
unfolding exit_handler
exit_handler_lem sys depth status s =
    let exit = exit_handler sys depth 0 in
    let s0 = record s { exiting = true } in
    let s1 = disabled sys s0 in
    let s2 = unchecked sys s1 in
    rw (
      disabled_lem sys exit s0 refl,
      unchecked_lem sys exit s1 (disabled-exiting sys s0 refl),
      removed_lem sys exit s2 (unchecked-exiting sys s1 (disabled-exiting sys s0 refl)),
    )

-- Whatever the kernel answers, the handler exits with the status that it is given, at any depth of at
-- least one, without calling itself; it asks to end the trace if it is on, to end the check of the
-- process if there is one, and to remove the buffers unless that has failed before, in this order.
pub exit_handler-cleanup :
    (sys : System) (depth status : ℕ) (s : State)
    → (t : State) × (exit_handler sys (suc depth) status s ≡ exited status t)
      × (requests t ≡ cleanup s ++ requests s)
      × (t.exiting ≡ true)
exit_handler-cleanup sys depth status s =
    (cleaned sys s, exit_handler_lem sys depth status s, ground arith, ground arith)
