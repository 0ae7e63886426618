-- ===== src/FbRotate/Turns.antt =====
-- 10-23/fb-rotate.c: an angle is a number of quarter turns.
use mac_os_x_internal.Prelude.{
  get_elem?_inside, ℕ_discrete, ◌<◌, ℕ, zero, suc, ◌*◌, ◌/◌, ◌%◌, ◌≡◌, ◌≢◌, ◌↔◌, arith, refl, none,
  some, ℤ, pos, negsuc, get_elem?,
}
use mac_os_x_internal.FbRotate.{
  Transform, rotate0, rotate90, rotate180, rotate270, angle2options, is_right, angle_index,
  anglebits_at, anglebits,
}

abbrev pub quarter : Transform → Transform
quarter rotate0 = rotate90
quarter rotate90 = rotate180
quarter rotate180 = rotate270
quarter rotate270 = rotate0

abbrev pub turned : ℕ → Transform
turned zero = rotate0
turned (suc n) = quarter (turned n)

quarter_four : (t : Transform) → quarter (quarter (quarter (quarter t))) ≡ t
quarter_four rotate0 = refl
quarter_four rotate90 = refl
quarter_four rotate180 = refl
quarter_four rotate270 = refl

anglebits-turned : (k : ℕ) → get_elem? anglebits (k % 4) ≡ some (turned k)
anglebits-turned zero = refl
anglebits-turned (suc zero) = refl
anglebits-turned (suc (suc zero)) = refl
anglebits-turned (suc (suc (suc zero))) = refl
anglebits-turned (suc (suc (suc (suc k)))) =
    let whole : suc (suc (suc (suc k))) % 4 ≡ k % 4 = omega arith in
    rw (whole, quarter_four (turned k)) (anglebits-turned k)

-- An angle of `k` times 90 degrees gives the transform of `k` quarter turns, so whole turns do not count.
pub angle2options-turned : (k : ℕ) → angle2options (pos (90 * k)) ≡ some (turned k)
unfolding angle2options is_right angle_index anglebits_at
angle2options-turned k =
    let right : 90 * k % 90 ≡ 0 = omega arith in
    let turns : 90 * k / 90 % 4 ≡ k % 4 = omega arith in rw (right, turns) (anglebits-turned k)

-- A negative multiple of 90 degrees that is no multiple of 360.
abbrev pub IsTurnedBack : ℤ → Type 0
IsTurnedBack (pos n) = ⊥
IsTurnedBack (negsuc n) = (suc n % 90 ≡ 0) × (suc n % 360 ≢ 0)

anglebits-inside : (i : ℕ) → i < 4 → get_elem? anglebits i ≢ none
anglebits-inside i small outside = grind (arith, get_elem?_inside anglebits i small)

-- The angle gives no transform, but an index before the table, exactly if it is negative and a multiple of 90 but not of
-- 360 degrees.
pub angle2options-none : (angle : ℤ) → (angle2options angle ≡ none) ↔ IsTurnedBack angle
unfolding angle2options is_right angle_index anglebits_at
angle2options-none (pos n) = ground (arith, anglebits-inside (n / 90 % 4))
angle2options-none (negsuc n) = elim (ℕ_discrete (suc n / 90 % 4) 0) [
  | yes whole ↦ rw whole (ground arith)
  | no part ↦ ground arith
]
