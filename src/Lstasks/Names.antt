-- ===== src/Lstasks/Names.antt =====
-- 7-21/lstasks.c: the tests before the tables of names are used.
use mac_os_x_internal.Prelude.{
  ◌↔◌, ltb, leb, Bool-cases, inl, inr, dec_lt, get_elem?_inside, get_elem?_outside, ℕ, zero, suc,
  ◌-◌, ◌^◌, ◌≤◌, ◌<◌, ◌≡◌, ◌≢◌, arith, refl, true, false, [], none, some, ℤ, pos, negsuc,
}
use mac_os_x_internal.Lstasks.Output.{
  String, thread_states, thread_states_max, thread_policies_max, task_roles_max, thread_policies,
  as_size, clamped_policy, policy_name, role_lines, state_name,
}

-- An `int` of 32 bits.
abbrev pub IsInt : ℤ → Type 0
IsInt (pos n) = n < 2 ^ 31
IsInt (negsuc n) = n < 2 ^ 31

-- A run state is always named: for every `int` the index of `thread_states` is inside the table.
pub state_name-some : (state : ℤ) → IsInt state → (name : String) × (state_name state ≡ some name)
unfolding state_name
state_name-some state int = elim (Bool-cases (leb thread_states_max (as_size state))) [
  | inl large ↦ ("?", rw large)
  | inr small ↦
      let (name, e) = get_elem?_inside thread_states (as_size state) (ground arith) in
      (name, rw small e)
]

policy_name_pos : (n : ℕ) → (policy_name (clamped_policy (pos n)) ≡ none) ↔ (4 ≤ n)
unfolding policy_name clamped_policy
policy_name_pos n = elim (dec_lt n 4) [
  | yes inside ↦
      let (name, e) = get_elem?_inside thread_policies n (omega arith) in
      ((λ outside. absurd (cc e)), (λ outside. absurd (omega arith)))
  | no more ↦ ((λ _. omega arith), (λ outside. get_elem?_outside thread_policies n outside))
]

policy_name_negsuc :
    (n : ℕ) → n < 2 ^ 31 → policy_name (clamped_policy (negsuc n)) ≡ some "UNKNOWN?"
unfolding policy_name clamped_policy
policy_name_negsuc n int =
    let large : ltb thread_policies_max (as_size (negsuc n)) ≡ true = ground arith in rw large

-- The correction before the policy is an index covers the negative values only: the index is outside
-- `thread_policies` exactly for the policies from 4 on.
pub policy_name_outside :
    (policy : ℤ)
    → IsInt policy
    → (policy_name (clamped_policy policy) ≡ none) ↔ ((n : ℕ) × (policy ≡ pos n) × (4 ≤ n))
policy_name_outside (pos n) int = (
  (λ outside. (n, refl, (policy_name_pos n).0 outside)),
  (λ t. (policy_name_pos n).1 (ground (arith, t.1))),
)
policy_name_outside (negsuc n) int =
    ((λ outside. absurd (cc (policy_name_negsuc n int))), (λ t. absurd (cc (t.1))))

-- A role is printed exactly if it is from 0 to 4. The role -1, `RENICED`, is in the table and passes the
-- first test, but the second compares it as a number without a sign.
pub role_lines_printed :
    (role : ℤ) → IsInt role → (role_lines role ≢ []) ↔ ((r : ℕ) × (role ≡ pos r) × (r < 5))
unfolding role_lines
role_lines_printed (pos r) int = elim (dec_lt r 5) [
  | yes inside ↦
      let passes : ltb (as_size (pos r)) (task_roles_max - 1) ≡ true = ground arith in
      ((λ _. (r, refl, inside)), (λ t e. cc (rw passes at e)))
  | no more ↦
      let fails : ltb (as_size (pos r)) (task_roles_max - 1) ≡ false = ground arith in
      ((λ printed. absurd (printed (rw fails))), (λ t e. ground (arith, t.1, t.2)))
]
role_lines_printed (negsuc zero) int =
    ((λ printed. absurd (printed refl)), (λ t. absurd (cc (t.1))))
role_lines_printed (negsuc (suc n)) int =
    ((λ printed. absurd (printed refl)), (λ t. absurd (cc (t.1))))
