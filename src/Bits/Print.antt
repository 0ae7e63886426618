-- ===== src/Bits/Print.antt =====
-- 6-51/vmachmon32.c and 6-28/commpage32.c: the printed bits are those of the word.
use mac_os_x_internal.Prelude.{
  ℕ, zero, suc, ◌+◌, ◌*◌, ◌/◌, ◌%◌, ◌^◌, ◌≤◌, ◌<◌, ◌≡◌, arith, refl, List, [], ◌∷◌, ◌++◌,
  if◌then◌else◌, test_bit, ap, Bool-cases, append-nil, ◌∙◌, dec_lt, sym, inl, inr, ◌==◌, length,
}
use native.Mathlib.Nat.{
  two-pow-succ, zero-add, suc-add, div-add-mod', mod-lt, mul-add-mod_self_left, mod-eq_of_lt,
  one-le-pow, mul-le-mul_right,
}
use mathlib.Core.Path.{◌≡⟨◌⟩◌, ◌∎}
use mac_os_x_internal.Bits.{bit_char, bits_down, prbits32, print_bits32, newline}

-- The number that a row of binary digits stands for, after those already read; other characters are skipped.
abbrev pub read_bits : ℕ → List ℕ → ℕ
read_bits acc [] = acc
read_bits acc (c ∷ cs) =
    read_bits (if c == b'0' then acc * 2 else if c == b'1' then acc * 2 + 1 else acc) cs

regroup : (k a d r : ℕ) → (2 * a + d) * k + r ≡ (k + k) * a + (d * k + r)
regroup k a d r = omega arith

mod-two-pow-suc : (u i : ℕ) → u % 2 ^ suc i ≡ u / 2 ^ i % 2 * 2 ^ i + u % 2 ^ i
mod-two-pow-suc u i =
    let k : ℕ = 2 ^ i in
    let q : ℕ = u / k in
    let rest : ℕ = q % 2 * k + u % k in
    let below : u % k < k = mod-lt u (one-le-pow i 2 (omega arith)) in
    let digit : q % 2 * k ≤ 1 * k = mul-le-mul_right k (omega arith) in
    let halves : q * k ≡ (2 * (q / 2) + q % 2) * k = ap (λ (t : ℕ). t * k) (omega arith) in
    let doubled : (k + k) * (q / 2) ≡ 2 ^ suc i * (q / 2) =
      ap (λ (t : ℕ). t * (q / 2)) (sym (two-pow-succ i)) in
    let whole : u ≡ 2 ^ suc i * (q / 2) + rest =
      omega (arith, div-add-mod' u k, regroup k (q / 2) (q % 2) (u % k)) in
    u % 2 ^ suc i
    ≡⟨ ap (λ (t : ℕ). t % 2 ^ suc i) whole ⟩ (2 ^ suc i * (q / 2) + rest) % 2 ^ suc i
    ≡⟨ mul-add-mod_self_left (2 ^ suc i) (q / 2) rest ⟩ rest % 2 ^ suc i
    ≡⟨ mod-eq_of_lt (omega (arith, two-pow-succ i)) ⟩ rest ∎

bits_down_step : (u i : ℕ) → bits_down u 0 (suc i) ≡ bit_char u i ∷ bits_down u 0 i
unfolding bits_down
bits_down_step u i = ground arith

read_bits-bit_char :
    (acc u i : ℕ) (cs : List ℕ)
    → read_bits acc (bit_char u i ∷ cs) ≡ read_bits (acc * 2 + u / 2 ^ i % 2) cs
unfolding bit_char
read_bits-bit_char acc u i cs = elim (Bool-cases (test_bit u i)) [
  | inl set ↦ rw set (ap (λ (t : ℕ). read_bits t cs) (ground arith))
  | inr clear ↦ rw clear (ap (λ (t : ℕ). read_bits t cs) (ground arith))
]

shifted : (acc d k r : ℕ) → (acc * 2 + d) * k + r ≡ acc * (k + k) + (d * k + r)
shifted acc d k r = omega arith

read_bits-bits_down :
    (acc u i : ℕ) (cs : List ℕ)
    → read_bits acc (bits_down u 0 i ++ cs) ≡ read_bits (acc * 2 ^ i + u % 2 ^ i) cs
unfolding bits_down
read_bits-bits_down acc u zero cs = ap (λ (t : ℕ). read_bits t cs) (omega arith)
read_bits-bits_down acc u (suc i) cs = rw (
  bits_down_step u i,
  read_bits-bit_char acc u i,
  read_bits-bits_down (acc * 2 + u / 2 ^ i % 2) u i cs,
  shifted acc,
  mod-two-pow-suc u i,
  two-pow-succ i,
)

-- The row of digits that `print_bits32` prints of a 32-bit word is that word in binary.
pub print_bits32-value : (u : ℕ) → u < 2 ^ 32 → read_bits 0 (print_bits32 u) ≡ u
unfolding print_bits32
print_bits32-value u small =
    rw (← append-nil (bits_down u 0 32), read_bits-bits_down 0 u 32 []) (omega arith)

bits_down_from : (u stop i : ℕ) → i ≤ stop → bits_down u stop i ≡ []
unfolding bits_down
bits_down_from u stop zero le = refl
bits_down_from u stop (suc i) le = ground arith

bits_down-append :
    (u stop i : ℕ) → stop ≤ i → bits_down u stop i ++ bits_down u 0 stop ≡ bits_down u 0 i
unfolding bits_down
bits_down-append u zero zero le = refl
bits_down-append u (suc stop) zero le = absurd (omega arith)
bits_down-append u stop (suc i) le = elim (dec_lt stop (suc i)) [
  | yes less ↦ ground (arith, bits_down-append u stop i)
  | no more ↦
      let same : suc i ≡ stop = omega arith in
      ap (λ (ds : List ℕ). ds ++ bits_down u 0 stop) (bits_down_from u stop (suc i) (omega arith))
      ∙ ap (bits_down u 0) (sym same)
]

length-bits_down : (u stop n : ℕ) → length (bits_down u stop (n + stop)) ≡ n
unfolding bits_down
length-bits_down u stop zero = rw (zero-add, bits_down_from u stop stop (omega arith))
length-bits_down u stop (suc n) = rw suc-add (ground (arith, length-bits_down u stop n))

-- `prbits32` prints the same 32 digits as `print_bits32`, 16 of them before a space and 16 between it
-- and the line feed.
pub prbits32-print_bits32 :
    (u : ℕ)
    → (high : List ℕ) × (low : List ℕ) × (prbits32 u ≡ high ++ b' ' ∷ low ++ newline ∷ [])
      × (high ++ low ≡ print_bits32 u)
      × (length high ≡ 16)
      × (length low ≡ 16)
unfolding prbits32 print_bits32
prbits32-print_bits32 u = (
  bits_down u 16 32,
  bits_down u 0 16,
  refl,
  bits_down-append u 16 32 (omega arith),
  length-bits_down u 16 16,
  length-bits_down u 0 16,
)
