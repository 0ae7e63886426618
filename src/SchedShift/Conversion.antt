-- ===== src/SchedShift/Conversion.antt =====
-- 7-50/sched_pri_shift.c: the conversion is exact, and the shift is the least one.
use native.Mathlib.Nat.{
  add_comm, mul_assoc, add-mul, pow-succ', add-mul-div_left, mod-eq_of_lt, div-div-eq-div-mul,
  div-le_self, mul-le-mul,
}
use mac_os_x_internal.Prelude.{
  ◌==◌, false, ℕ, zero, suc, ◌+◌, ◌-◌, ◌*◌, ◌/◌, ◌^◌, ◌≤◌, ◌<◌, ◌≡◌, some, arith, refl, u32, u64,
  ◌∙◌, sym, ap, dec_lt,
}
use mac_os_x_internal.SchedShift.{
  nsec_per_sec, nsec_per_usec, usec_per_sec, sched_tick_shift, basepri_default, TbInfo,
  clock_interval_to_absolutetime_interval, shift_loop, turns, main,
}

-- The whole seconds and the rest, converted apart, give the conversion of all.
split_lem :
    (n d : ℕ)
    → n / nsec_per_sec * d + (n - n / nsec_per_sec * nsec_per_sec) * d / nsec_per_sec
      ≡ n * d / nsec_per_sec
split_lem n d =
    let q = n / nsec_per_sec in
    let r = n - q * nsec_per_sec in
    let whole : n ≡ r + nsec_per_sec * q = omega arith in
    let scaled : n * d ≡ r * d + nsec_per_sec * (q * d) =
      ap (λ m. m * d) whole
      ∙ add-mul r (nsec_per_sec * q) d
      ∙ ap (λ m. r * d + m) (mul_assoc nsec_per_sec q d) in
    let divided : (r * d + nsec_per_sec * (q * d)) / nsec_per_sec ≡ r * d / nsec_per_sec + q * d =
      add-mul-div_left (r * d) (q * d) (omega arith) in
    rw (scaled, divided) (add_comm (q * d) (r * d / nsec_per_sec))

-- The shift is the least one that brings the number down to `BASEPRI_DEFAULT`.
abbrev pub IsLeast : (abstime shift : ℕ) → Type 0
IsLeast abstime shift =
    (abstime / 2 ^ shift ≤ basepri_default)
    × ((k : ℕ) → k < shift → basepri_default < abstime / 2 ^ k)

halved : (a k : ℕ) → a / 2 ^ suc k ≡ a / 2 / 2 ^ k
halved a k = ap (λ m. a / m) (pow-succ' 2 k) ∙ sym (div-div-eq-div-mul a 2 (2 ^ k))

shift_turn :
    (fuel abstime start : ℕ)
    → basepri_default < abstime
    → shift_loop (suc fuel) abstime start ≡ shift_loop fuel (abstime / 2) (start + 1)
unfolding shift_loop
shift_turn fuel abstime start large = ground arith

shift_stop :
    (fuel abstime start : ℕ)
    → abstime ≤ basepri_default
    → shift_loop (suc fuel) abstime start ≡ some (start + 0)
unfolding shift_loop
shift_stop fuel abstime start small = ground arith

least_lem :
    (abstime shift : ℕ)
    → basepri_default < abstime
    → ((k : ℕ) → k < shift → basepri_default < abstime / 2 / 2 ^ k)
    → (k : ℕ) → k < suc shift
    → basepri_default < abstime / 2 ^ k
least_lem abstime shift large least zero h = omega (arith, large)
least_lem abstime shift large least (suc k) h = rw (halved abstime k) (least k (omega arith))

pub shift_loop-IsLeast :
    (fuel abstime start : ℕ)
    → abstime < 2 ^ suc fuel
    → (shift : ℕ) × (shift_loop (suc fuel) abstime start ≡ some (start + shift))
      × IsLeast abstime shift
shift_loop-IsLeast zero abstime start small =
    (0, shift_stop _ abstime start (omega arith), (omega arith, λ k h. absurd (omega arith)))
shift_loop-IsLeast (suc fuel) abstime start small = elim (dec_lt basepri_default abstime) [
  | yes large ↦
      let double : 2 ^ suc (suc fuel) ≡ 2 * 2 ^ suc fuel = pow-succ' 2 (suc fuel) in
      let half : abstime / 2 < 2 ^ suc fuel = omega (arith, small, double) in
      let (shift, e, least) = shift_loop-IsLeast fuel (abstime / 2) (start + 1) half in
      (
        suc shift,
        shift_turn (suc fuel) abstime start large ∙ e ∙ ap some (omega arith),
        (rw (halved abstime shift) least.0, least_lem abstime shift large least.1),
      )
  | no small ↦
      (0, shift_stop _ abstime start (omega arith), (omega arith, λ k h. absurd (omega arith)))
]

abbrev pub divisor_of : TbInfo → ℕ
divisor_of tbinfo = tbinfo.denom / (tbinfo.numer / nsec_per_sec)

product_small : (a b m n : ℕ) → a ≤ m → b ≤ n → m * n < 2 ^ 64 → u64 (a * b) ≡ a * b
product_small a b m n a_small b_small small =
    let below = mul-le-mul {n₁ = a} {m₁ = b} {n₂ = m} {m₂ = n} a_small b_small in
    mod-eq_of_lt (omega (arith, below, small))

-- Where `numer` is at least NSEC_PER_SEC, so that the code does not divide by zero, the arguments and `denom` fit 32 bits, and the result fits 64 bits, the
-- conversion by whole seconds and the rest is that of all nanoseconds at once, rounded down.
pub clock_interval_to_absolutetime_interval-exact :
    (tbinfo : TbInfo) (interval scale_factor : ℕ)
    → interval < 2 ^ 32
    → scale_factor < 2 ^ 32
    → nsec_per_sec ≤ tbinfo.numer
    → tbinfo.denom < 2 ^ 32
    → interval * scale_factor * divisor_of tbinfo / nsec_per_sec < 2 ^ 64
    → clock_interval_to_absolutetime_interval tbinfo interval scale_factor
      ≡ some (interval * scale_factor * divisor_of tbinfo / nsec_per_sec)
unfolding clock_interval_to_absolutetime_interval
clock_interval_to_absolutetime_interval-exact tbinfo interval scale_factor small small' runs
      small_denom fits =
    let d = divisor_of tbinfo in
    let n = interval * scale_factor in
    let q = n / nsec_per_sec in
    let r = n - q * nsec_per_sec in
    let small_n : u64 n ≡ n =
      product_small interval scale_factor (2 ^ 32 - 1) (2 ^ 32 - 1) (omega arith) (omega arith)
        (omega arith) in
    let at_most = div-le_self tbinfo.denom (tbinfo.numer / nsec_per_sec) in
    let small_d : u32 d ≡ d = mod-eq_of_lt (omega (arith, at_most)) in
    let small_rest : u64 (r * d) ≡ r * d =
      product_small r d nsec_per_sec (2 ^ 32 - 1) (omega arith) (omega (arith, at_most))
        (omega arith) in
    let all = split_lem n d in
    let small_whole : u64 (q * d) ≡ q * d = mod-eq_of_lt (omega (arith, all, fits)) in
    let some_divisor : (tbinfo.numer / nsec_per_sec == 0) ≡ false = ground arith in
    rw (some_divisor, small_n, small_d, small_whole, small_rest, all) (ap some (mod-eq_of_lt fits))

-- A tick of the scheduler, an eighth of a second, in units of the time base.
abbrev pub tick_of : TbInfo → ℕ
tick_of tbinfo =
    usec_per_sec / 2 ^ sched_tick_shift * nsec_per_usec * divisor_of tbinfo / nsec_per_sec

main_turn :
    (tbinfo : TbInfo) (abstime shift : ℕ)
    → clock_interval_to_absolutetime_interval tbinfo
        (usec_per_sec / 2 ^ sched_tick_shift)
        nsec_per_usec
      ≡ some abstime
    → abstime < 2 ^ 32
    → shift_loop turns (abstime * 5 / 3) 0 ≡ some shift
    → main tbinfo ≡ some (abstime, shift)
unfolding main
main_turn tbinfo abstime shift converted small shifted =
    let long : u64 (abstime * 5) ≡ abstime * 5 = mod-eq_of_lt (omega arith) in
    let same : u32 abstime ≡ abstime = mod-eq_of_lt small in
    rw (main, converted, long, shifted, same) refl

-- Where `numer` is at least NSEC_PER_SEC and `denom` fits 32 bits, `main` prints the tick and a shift, which is the least one that brings five thirds of
-- the tick down to BASEPRI_DEFAULT: the loop ends within 64 turns.
pub main-IsLeast :
    (tbinfo : TbInfo)
    → nsec_per_sec ≤ tbinfo.numer
    → tbinfo.denom < 2 ^ 32
    → (shift : ℕ) × (main tbinfo ≡ some (tick_of tbinfo, shift))
      × IsLeast (tick_of tbinfo * 5 / 3) shift
main-IsLeast tbinfo runs small_denom =
    let at_most = div-le_self tbinfo.denom (tbinfo.numer / nsec_per_sec) in
    let small : tick_of tbinfo < 2 ^ 32 = omega (arith, at_most) in
    let converted =
      clock_interval_to_absolutetime_interval-exact tbinfo (usec_per_sec / 2 ^ sched_tick_shift)
        nsec_per_usec (omega arith) (omega arith) runs small_denom (omega (arith, small)) in
    let (shift, e, least) =
      shift_loop-IsLeast 63 (tick_of tbinfo * 5 / 3) 0 (omega (arith, small)) in
    (
      shift,
      main_turn tbinfo (tick_of tbinfo) shift converted small (e ∙ ap some (omega arith)),
      least,
    )
