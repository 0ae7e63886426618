-- ===== src/Bits/Capabilities.antt =====
-- 6-28/commpage32.c: which names `print_cpu_capabilities` prints.
use mac_os_x_internal.Prelude.{
  ℕ, zero, suc, ◌+◌, ◌≤◌, ◌<◌, ◌≡◌, ◌↔◌, arith, refl, ◌∷◌, test_bit, Option, none, some, In, true,
  false, Bool-cases, Option-cases, inl, inr, ◌⊎◌, ℕ_discrete, ap, ◌∙◌,
}
use mac_os_x_internal.Bits.{capabilities_from, print_cpu_capabilities}

-- A name is printed for a set bit from `i` to `i + rounds - 1`.
abbrev pub Named : {A : Type 0} → (ℕ → Option A) → ℕ → ℕ → ℕ → A → Type 0
Named names cap i rounds a =
    (j : ℕ) × (i ≤ j) × (j < i + rounds) × (names j ≡ some a) × (test_bit cap j ≡ true)

module _ {A : Type 0} (names : ℕ → Option A) (cap : ℕ) where
  capabilities_from-none :
      (i rounds : ℕ)
      → names i ≡ none
      → capabilities_from names cap i (suc rounds) ≡ capabilities_from names cap (i + 1) rounds
  unfolding capabilities_from
  capabilities_from-none i rounds e = ground arith

  capabilities_from_set :
      (i rounds : ℕ) (a : A)
      → names i ≡ some a
      → test_bit cap i ≡ true
      → capabilities_from names cap i (suc rounds) ≡ a ∷ capabilities_from names cap (i + 1) rounds
  unfolding capabilities_from
  capabilities_from_set i rounds a e set = ground arith

  capabilities_from_clear :
      (i rounds : ℕ)
      → test_bit cap i ≡ false
      → capabilities_from names cap i (suc rounds) ≡ capabilities_from names cap (i + 1) rounds
  unfolding capabilities_from
  capabilities_from_clear i rounds clear = ground arith

  capabilities_from_step :
      (i rounds : ℕ) (a : A)
      → In a (capabilities_from names cap i (suc rounds))
      → ((names i ≡ some a) × (test_bit cap i ≡ true))
        ⊎ In a (capabilities_from names cap (i + 1) rounds)
  capabilities_from_step i rounds a h = elim (Option-cases (names i)) [
    | inl nothing ↦ inr (rw (capabilities_from-none i rounds nothing) at h)
    | inr (name, e) ↦ elim (Bool-cases (test_bit cap i)) [
      | inl set ↦ elim (rw (capabilities_from_set i rounds name e set) at h) [
        | inl same ↦ inl (e ∙ ap some same, set)
        | inr later ↦ inr later
      ]
      | inr clear ↦ inr (rw (capabilities_from_clear i rounds clear) at h)
    ]
  ]

  In-capabilities_from :
      (i rounds : ℕ) (a : A)
      → In a (capabilities_from names cap i rounds)
      → Named names cap i rounds a
  unfolding capabilities_from
  In-capabilities_from i zero a h = absurd h
  In-capabilities_from i (suc rounds) a h = elim (capabilities_from_step i rounds a h) [
    | inl (e, set) ↦ (i, omega arith, omega arith, e, set)
    | inr later ↦
        let (j, lo, hi, e, set) = In-capabilities_from (i + 1) rounds a later in
        (j, omega arith, omega arith, e, set)
  ]

  capabilities_from-In :
      (i rounds : ℕ) (a : A)
      → Named names cap i rounds a
      → In a (capabilities_from names cap i rounds)
  unfolding capabilities_from
  capabilities_from-In i zero a (j, lo, hi, e, set) = absurd (omega arith)
  capabilities_from-In i (suc rounds) a (j, lo, hi, e, set) = elim (ℕ_discrete i j) [
    | yes same ↦ rw (same, capabilities_from_set j rounds a e set) (inl refl)
    | no other ↦
        let later = capabilities_from-In (i + 1) rounds a (j, omega arith, omega arith, e, set) in
        elim (Option-cases (names i)) [
          | inl nothing ↦ rw (capabilities_from-none i rounds nothing) later
          | inr (name, f) ↦ elim (Bool-cases (test_bit cap i)) [
            | inl on ↦ rw (capabilities_from_set i rounds name f on) (inr later)
            | inr off ↦ rw (capabilities_from_clear i rounds off) later
          ]
        ]
  ]

  -- `print_cpu_capabilities` prints a name exactly when the table has it for one of the bits 0 to 30
  -- and that bit is set.
  pub print_cpu_capabilities_iff :
      (a : A)
      → In a (print_cpu_capabilities names cap)
        ↔ ((j : ℕ) × (j < 31) × (names j ≡ some a) × (test_bit cap j ≡ true))
  unfolding print_cpu_capabilities
  print_cpu_capabilities_iff a = (
    (λ h. let (j, _, hi, e, set) = In-capabilities_from 0 31 a h in (j, omega arith, e, set)),
    (λ t. capabilities_from-In 0 31 a (t.0, omega arith, omega arith, t.2, t.3)),
  )
