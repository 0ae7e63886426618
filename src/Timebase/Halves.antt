-- ===== src/Timebase/Halves.antt =====
-- 3-9/timebase.c: the two halves belong to one value.
use mac_os_x_internal.Prelude.{
  ℕ, ◌+◌, ◌*◌, ◌^◌, ◌≤◌, ◌<◌, ◌≡◌, ◌≢◌, List, [], ◌∷◌, none, some, arith, All, ◌⊎◌, inl, inr,
}
use mac_os_x_internal.Timebase.{Turn, mftb32, mftbu, Printed, main, shown_halves}

-- The time base does not run backwards during a turn, nor does it wrap around.
abbrev pub IsRunning : Turn → Type 0
IsRunning turn =
    (turn.at_mftbu ≤ turn.at_mftb)
    × (turn.at_mftb ≤ turn.at_second_mftbu)
    × (turn.at_second_mftbu < 2 ^ 64)

-- One of the turns read the lower half of the value.
abbrev pub WasRead : ℕ → List Turn → Type 0
WasRead t [] = ⊥
WasRead t (turn ∷ turns) = (turn.at_mftb ≡ t) ⊎ WasRead t turns

-- Where the time base runs forwards in each turn and does not wrap around its 64 bits, the two halves that `mftb32` gives are those of one value, which the time base had when
-- one of the turns read the lower half.
pub mftb32-WasRead :
    (turns : List Turn) (u l : ℕ)
    → All IsRunning turns
    → mftb32 turns ≡ some (u, l)
    → WasRead (u * 2 ^ 32 + l) turns
unfolding mftb32
mftb32-WasRead [] u l running e = absurd (ground arith)
mftb32-WasRead (turn ∷ turns) u l running e =
    let rest : mftb32 turns ≡ some (u, l) → WasRead (u * 2 ^ 32 + l) turns =
      mftb32-WasRead turns u l running.1 in
    ground arith

-- A turn in which the upper half stays as it is.
abbrev pub IsSteady : Turn → Type 0
IsSteady turn = mftbu turn.at_mftbu ≡ mftbu turn.at_second_mftbu

abbrev pub SomeSteady : List Turn → Type 0
SomeSteady [] = ⊥
SomeSteady (turn ∷ turns) = IsSteady turn ⊎ SomeSteady turns

-- The loop ends with the first turn in which the upper half stays as it is.
pub mftb32_ends : (turns : List Turn) → SomeSteady turns → mftb32 turns ≢ none
unfolding mftb32
mftb32_ends [] steady = absurd steady
mftb32_ends (turn ∷ turns) (inl steady) = ground arith
mftb32_ends (turn ∷ turns) (inr steady) =
    let rest = mftb32_ends turns steady in ground (arith, rest)

-- `main` prints the lower half first, so that the halves show the value only where they are equal.
pub main-swapped :
    (t : ℕ) (turns : List Turn) (u l : ℕ) (p : Printed)
    → l < 2 ^ 32
    → u < 2 ^ 32
    → mftb32 turns ≡ some (u, l)
    → main t turns ≡ some p
    → shown_halves p ≡ u * 2 ^ 32 + l
    → u ≡ l
unfolding main
main-swapped t turns u l p low up e printed same = ground arith
