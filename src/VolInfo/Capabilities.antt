-- ===== src/VolInfo/Capabilities.antt =====
-- 12-34/getattrlist_volinfo.c: which names are printed.
use Prim.Native.String.{String}
use mac_os_x_internal.Prelude.{
  ℕ, zero, suc, ◌<◌, ◌≡◌, Bool, true, ◌&&◌, List, [], ◌∷◌, arith, In, ◌⊎◌, inl, inr, ◌↔◌, test_bit,
  Bool-cases, ◌||◌, dec_lt, subst, sym, if◌then◌else◌,
}
use mac_os_x_internal.VolInfo.{Words, has_common_bit, print_volume_capabilities}

and_or_true : (p q r : Bool) → ((p && q) || r) ≡ true → ((p ≡ true) × (q ≡ true)) ⊎ (r ≡ true)
and_or_true p q r e = ground arith

and_or_back : (p q r : Bool) → ((p ≡ true) × (q ≡ true)) ⊎ (r ≡ true) → ((p && q) || r) ≡ true
and_or_back p q r e = ground arith

-- A bit below a width that is set in both words.
abbrev pub IsCommon : (width a b i : ℕ) → Type 0
IsCommon width a b i = (i < width) × (test_bit a i ≡ true) × (test_bit b i ≡ true)

has_common_bit-found :
    (width a b : ℕ) → has_common_bit width a b ≡ true → (i : ℕ) × IsCommon width a b i
unfolding has_common_bit
has_common_bit-found zero a b e = absurd (ground arith)
has_common_bit-found (suc width) a b e =
    elim (and_or_true (test_bit a width) (test_bit b width) (has_common_bit width a b) e) [
      | inl both ↦ (width, (omega arith, both.0, both.1))
      | inr rest ↦
          let (i, common) = has_common_bit-found width a b rest in
          (i, (omega (arith, common.0), common.1, common.2))
    ]

found-has_common_bit : (width a b i : ℕ) → IsCommon width a b i → has_common_bit width a b ≡ true
unfolding has_common_bit
found-has_common_bit zero a b i common = absurd (omega (arith, common.0))
found-has_common_bit (suc width) a b i common =
    and_or_back (test_bit a width) (test_bit b width) (has_common_bit width a b)
      (elim (dec_lt i width) [
        | yes below ↦ inr (found-has_common_bit width a b i (below, common.1, common.2))
        | no above ↦
            let last : i ≡ width = omega (arith, common.0) in
            inl
              (subst (λ k. (test_bit a k ≡ true) × (test_bit b k ≡ true)) last (common.1, common.2))
      ])

-- The volume has the capability of a name, and knows of it.
abbrev pub HasCapability : (String → ℕ) → Words → String → Type 0
HasCapability bits words name =
    ((i : ℕ) × IsCommon 32 (bits name) words.valid i)
    × ((i : ℕ) × IsCommon 32 (bits name) words.capabilities i)

both_true : (p q : Bool) → (p && q) ≡ true → (p ≡ true) × (q ≡ true)
both_true p q e = ground arith

both_back : (p q : Bool) → p ≡ true → q ≡ true → (p && q) ≡ true
both_back p q e f = ground arith

-- The loop of the table, for any test of a name.
shown_lem :
    (test : String → Bool) (n name : String) (later names : List String)
    → (In name later → In name names × (test name ≡ true))
    → In name (if test n then n ∷ later else later)
    → In name (n ∷ names) × (test name ≡ true)
shown_lem test n name later names rest shown = elim (Bool-cases (test n)) [
  | inl t ↦
      (let shown' : In name (n ∷ later) =
          subst (λ b. In name (if b then n ∷ later else later)) t shown in
        elim shown' [
          | inl same ↦ (inl same, subst (λ m. test m ≡ true) same t)
          | inr found ↦ (inr (rest found).0, (rest found).1)
        ])
  | inr f ↦
      (let shown' : In name later = subst (λ b. In name (if b then n ∷ later else later)) f shown in
        (inr (rest shown').0, (rest shown').1))
]

kept_shown :
    (test : String → Bool) (n name : String) (later names : List String)
    → (In name names → In name later)
    → In name (n ∷ names)
    → test name ≡ true
    → In name (if test n then n ∷ later else later)
kept_shown test n name later names rest (inl same) t =
    let holds : test n ≡ true = subst (λ m. test m ≡ true) (sym same) t in
    subst (λ b. In name (if b then n ∷ later else later)) (sym holds) (inl same)
kept_shown test n name later names rest (inr found) t = elim (Bool-cases (test n)) [
  | inl h ↦ subst (λ b. In name (if b then n ∷ later else later)) (sym h) (inr (rest found))
  | inr h ↦ subst (λ b. In name (if b then n ∷ later else later)) (sym h) (rest found)
]

module _ (bits : String → ℕ) (words : Words) where
  abbrev shows : String → Bool
  shows name =
      has_common_bit 32 (bits name) words.valid && has_common_bit 32 (bits name) words.capabilities

  printed_shows :
      (names : List String) (name : String)
      → In name (print_volume_capabilities bits words names)
      → In name names × (shows name ≡ true)
  unfolding print_volume_capabilities
  printed_shows [] name printed = absurd printed
  printed_shows (n ∷ names) name printed =
      shown_lem shows n name (print_volume_capabilities bits words names) names
        (printed_shows names name) printed

  shows_printed :
      (names : List String) (name : String)
      → In name names
      → shows name ≡ true
      → In name (print_volume_capabilities bits words names)
  unfolding print_volume_capabilities
  shows_printed [] name listed holds = absurd listed
  shows_printed (n ∷ names) name listed holds =
      kept_shown shows n name (print_volume_capabilities bits words names) names
        (λ found. shows_printed names name found holds) listed holds

  -- A name is printed exactly where it stands in the table and one of its bits is set in the word of the valid capabilities, and one in that of
  -- the capabilities.
  pub print_volume_capabilities_iff :
      (names : List String) (name : String)
      → In name (print_volume_capabilities bits words names)
        ↔ (In name names × HasCapability bits words name)
  print_volume_capabilities_iff names name = (
    λ printed.
        (let (listed, holds) = printed_shows names name printed in
          let both = both_true _ _ holds in
          (
            listed,
            (
              has_common_bit-found 32 (bits name) words.valid both.0,
              has_common_bit-found 32 (bits name) words.capabilities both.1,
            ),
          )),
    λ has. shows_printed names name has.0 (
        both_back _ _ (found-has_common_bit 32 (bits name) words.valid has.1.0.0 has.1.0.1)
          (found-has_common_bit 32 (bits name) words.capabilities has.1.1.0 has.1.1.1)),
  )
