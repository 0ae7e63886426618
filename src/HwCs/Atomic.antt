-- ===== src/HwCs/Atomic.antt =====
-- 3-28/hw_cs.s: the comparison and the store are one step.
use mac_os_x_internal.Prelude.{
  ℕ, List, [], ◌∷◌, ◌≡◌, ◌≢◌, ◌⊎◌, inl, inr, arith, refl, In, All, ==_iff, ℕ_discrete,
}
use mac_os_x_internal.HwCs.{Rival, after, looptry}

-- The words that the rounds of the loop find at the address.
abbrev pub found : List Rival → ℕ → List ℕ
found [] word = word ∷ []
found (rival ∷ rivals) word = word ∷ found rivals (after rival word)

module _ (old new : ℕ) where
  looptry_last : looptry old new [] old ≡ (1, new)
  unfolding looptry
  looptry_last = rw (==_iff old old).1 refl

  looptry_overtaken :
      (rival : Rival) (rivals : List Rival)
      → looptry old new (rival ∷ rivals) old ≡ looptry old new rivals (after rival old)
  unfolding looptry
  looptry_overtaken rival rivals = rw (==_iff old old).1 refl

  looptry_differs :
      (rivals : List Rival) (word : ℕ) → word ≢ old → looptry old new rivals word ≡ (0, word)
  unfolding looptry
  looptry_differs [] word other = ground arith
  looptry_differs (rival ∷ rivals) word other = ground arith

-- What a compare-and-store may do that finds the words `ws` one after the other: return 1 with the new word, where all of
-- them are the old one, or return 0 with one of them that is not the old one.
pub IsAtomic : (old new : ℕ) → List ℕ → ℕ × ℕ → Type 0
IsAtomic old new ws r =
    ((r ≡ (1, new)) × All (λ w. w ≡ old) ws) ⊎ ((r.0 ≡ 0) × (r.1 ≢ old) × In r.1 ws)

IsAtomic-again :
    (old new : ℕ) (ws : List ℕ) (r : ℕ × ℕ) → IsAtomic old new ws r → IsAtomic old new (old ∷ ws) r
unfolding IsAtomic
IsAtomic-again old new ws r (inl (won, all)) = inl (won, (refl, all))
IsAtomic-again old new ws r (inr (lost, differs, one)) = inr (lost, differs, inr one)

IsAtomic-differs :
    (old new word : ℕ) (ws : List ℕ) → word ≢ old → IsAtomic old new (word ∷ ws) (0, word)
unfolding IsAtomic
IsAtomic-differs old new word ws other = inr (refl, other, inl refl)

IsAtomic-last : (old new : ℕ) → IsAtomic old new (old ∷ []) (1, new)
unfolding IsAtomic
IsAtomic-last old new = inl (refl, (refl, tt))

-- However often other threads take the reservation away, the loop ends in one of two ways. It returns 1 and leaves the
-- new word, and every round has found the old word there, the last one included, after which no other thread stores.
-- Or it returns 0 and leaves a word that one of its rounds has found and that is not the old one.
pub looptry-IsAtomic :
    (old new : ℕ) (rivals : List Rival) (word : ℕ)
    → IsAtomic old new (found rivals word) (looptry old new rivals word)
looptry-IsAtomic old new [] word = elim (ℕ_discrete word old) [
  | yes same ↦ rw (same, looptry_last old new) (IsAtomic-last old new)
  | no other ↦ rw (looptry_differs old new [] word other) (IsAtomic-differs old new word [] other)
]
looptry-IsAtomic old new (rival ∷ rivals) word = elim (ℕ_discrete word old) [
  | yes same ↦
      rw (same, looptry_overtaken old new rival rivals)
        (IsAtomic-again old new _ _ (looptry-IsAtomic old new rivals (after rival old)))
  | no other ↦
      rw (looptry_differs old new (rival ∷ rivals) word other)
        (IsAtomic-differs old new word (found rivals (after rival word)) other)
]

-- Alone, the loop stores the new word over the old one.
pub looptry_alone : (old new : ℕ) → looptry old new [] old ≡ (1, new)
looptry_alone old new = looptry_last old new
