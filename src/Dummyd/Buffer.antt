-- ===== src/Dummyd/Buffer.antt =====
-- 5-26/dummyd.c: bytes that are stored one after the other stand in the buffer.
use mac_os_x_internal.Prelude.{
  ℕ, zero, suc, ◌+◌, ◌≤◌, ◌<◌, ◌≡◌, arith, refl, List, [], ◌∷◌, update, length, ◌++◌, ap, ◌∙◌,
}
use mac_os_x_internal.Dummyd.{contents}

-- The buffer after the bytes are stored from index `i` on.
abbrev pub stored : (ℕ → ℕ) → ℕ → List ℕ → ℕ → ℕ
stored buf i [] = buf
stored buf i (c ∷ cs) = stored (update buf i c) (i + 1) cs

stored_below : (buf : ℕ → ℕ) (i j : ℕ) (cs : List ℕ) → j < i → stored buf i cs j ≡ buf j
stored_below buf i j [] h = refl
stored_below buf i j (c ∷ cs) h = ground (arith, stored_below (update buf i c) (i + 1) j cs)

pub contents-stored :
    (buf : ℕ → ℕ) (i : ℕ) (cs : List ℕ) → contents (stored buf i cs) i (length cs) ≡ cs
contents-stored buf i [] = refl
contents-stored buf i (c ∷ cs) =
    ground (
      arith,
      stored_below (update buf i c) (i + 1) i cs,
      contents-stored (update buf i c) (i + 1) cs,
    )

pub contents-update :
    (buf : ℕ → ℕ) (i n j v : ℕ) → i + n ≤ j → contents (update buf j v) i n ≡ contents buf i n
contents-update buf i zero j v h = refl
contents-update buf i (suc n) j v h = ground (arith, contents-update buf (i + 1) n j v)

-- The bytes, and the zero behind them, that `readline` leaves.
pub contents-terminated :
    (buf : ℕ → ℕ) (cs : List ℕ)
    → contents (update (stored buf 0 cs) (length cs) 0) 0 (length cs) ≡ cs
contents-terminated buf cs =
    contents-update (stored buf 0 cs) 0 (length cs) (length cs) 0 (omega arith)
    ∙ contents-stored buf 0 cs

pub stored-append :
    (buf : ℕ → ℕ) (i : ℕ) (cs : List ℕ) (c : ℕ)
    → stored buf i (cs ++ c ∷ []) ≡ update (stored buf i cs) (i + length cs) c
stored-append buf i [] c = ap (λ (k : ℕ). update buf k c) (omega arith)
stored-append buf i (d ∷ cs) c =
    stored-append (update buf i d) (i + 1) cs c
    ∙ ap (λ (k : ℕ). update (stored (update buf i d) (i + 1) cs) k c) (omega arith)
