-- ===== src/FbRotate.antt =====
-- 10-23/fb-rotate.c: the options for an angle, and the options of the command line.
pub mod Turns
mod Tests
use mac_os_x_internal.Prelude.{
  ℕ, zero, suc, ◌/◌, ◌%◌, Bool, true, false, not, List, [], ◌∷◌, Option, none, some, ◌==◌,
  if◌then◌else◌, get_elem?, ℤ, pos, negsuc,
}

-- The four transforms of the frame buffer.
pub data Transform : Type 0 where
  rotate0 rotate90 rotate180 rotate270 : Transform

abbrev pub anglebits : List Transform
anglebits = rotate0 ∷ rotate90 ∷ rotate180 ∷ rotate270 ∷ []

-- `-n`, as an integer.
abbrev pub negated : ℕ → ℤ
negated zero = pos zero
negated (suc n) = negsuc n

-- `(angle / 90) % 4`: both operations round towards zero.
unfoldable pub angle_index : ℤ → ℤ
angle_index (pos n) = pos (n / 90 % 4)
angle_index (negsuc n) = negated (suc n / 90 % 4)

-- Whether `angle % 90` is 0.
unfoldable pub is_right : ℤ → Bool
is_right (pos n) = n % 90 == 0
is_right (negsuc n) = suc n % 90 == 0

-- `anglebits[index]`, `none` outside the table.
unfoldable pub anglebits_at : ℤ → Option Transform
anglebits_at (pos i) = get_elem? anglebits i
anglebits_at (negsuc i) = none

unfoldable pub angle2options : ℤ → Option Transform
angle2options angle =
    if not (is_right angle) then some rotate0 else anglebits_at (angle_index angle)

-- The options: `d` with the value of `strtol`, `r` with an angle, and others, which are passed over.
pub data Opt : Type 0 where
  d : ℕ → Opt
  l : Opt
  r : ℤ → Opt
  other : Opt

-- What `main` does: it exits with a status, or asks for a transform of a display.
pub data Outcome : Type 0 where
  listed : Outcome
  usage : Outcome
  probed : (display : ℕ) → Option Transform → Outcome

-- The `getopt` loop and what follows it; `main_display` is what `CGMainDisplayID` gives, and `-l` exits.
unfoldable pub main : (main_display : ℕ) → (display : ℕ) → (angle : ℤ) → List Opt → Outcome
main main_display display angle [] =
    if display == 0 then usage else probed display (angle2options angle)
main main_display display angle (d id ∷ opts) =
    main main_display (if id == 0 then main_display else id) angle opts
main main_display display angle (l ∷ opts) = listed
main main_display display angle (r angle' ∷ opts) = main main_display display angle' opts
main main_display display angle (other ∷ opts) = main main_display display angle opts
