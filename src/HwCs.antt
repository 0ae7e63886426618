-- ===== src/HwCs.antt =====
-- 3-28/hw_cs.s: the compare-and-store loop, with the stores of other threads between its two accesses.
mod Tests
pub mod Atomic
use mac_os_x_internal.Prelude.{ℕ, List, [], ◌∷◌, Option, none, some, ◌==◌, if◌then◌else◌}

-- Another thread takes the reservation away, and may store a word.
abbrev pub Rival : Type 0
Rival = Option ℕ

-- The word at the address after a rival.
abbrev pub after : Rival → ℕ → ℕ
after none word = word
after (some stored) word = stored

-- From the label `looptry` on: the result, and the word at the address. Each rival comes between the load and the
-- conditional store of one round, which then fails; the round after the last rival keeps its reservation.
unfoldable pub looptry : (old new : ℕ) → List Rival → (word : ℕ) → ℕ × ℕ
looptry old new [] word = if word == old then (1, new) else (0, word)
looptry old new (rival ∷ rivals) word =
    let again = looptry old new rivals (after rival word) in
    if word == old then again else (0, word)
