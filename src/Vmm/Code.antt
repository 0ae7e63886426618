-- ===== src/Vmm/Code.antt =====
-- 6-51/vmachmon32.c: the instruction templates and the two guest programs.
use mac_os_x_internal.Prelude.{ℕ, ◌+◌, ◌-◌, ◌*◌, ◌/◌, ◌%◌, ◌^◌, List, [], ◌∷◌, u32, update}

-- `I_addi_d_form`.
pub record Addi : Type 0 where
  pub op : ℕ
  pub rt : ℕ
  pub ra : ℕ
  pub si : ℕ

-- `I_branch_i_form`.
pub record Branch : Type 0 where
  pub op : ℕ
  pub li : ℕ
  pub aa : ℕ
  pub lk : ℕ

-- `I_add_xo_form`.
pub record Add : Type 0 where
  pub op : ℕ
  pub rt : ℕ
  pub ra : ℕ
  pub rb : ℕ
  pub oe : ℕ
  pub xo : ℕ
  pub rc : ℕ

-- The words that the bit fields fill, the first field in the highest bits.
unfoldable pub addi_word : Addi → ℕ
addi_word i = i.op % 2 ^ 6 * 2 ^ 26 + i.rt % 2 ^ 5 * 2 ^ 21 + i.ra % 2 ^ 5 * 2 ^ 16 + i.si % 2 ^ 16

unfoldable pub branch_word : Branch → ℕ
branch_word i = i.op % 2 ^ 6 * 2 ^ 26 + i.li % 2 ^ 24 * 2 ^ 2 + i.aa % 2 * 2 + i.lk % 2

unfoldable pub add_word : Add → ℕ
add_word i =
    i.op % 2 ^ 6 * 2 ^ 26
    + i.rt % 2 ^ 5 * 2 ^ 21
    + i.ra % 2 ^ 5 * 2 ^ 16
    + i.rb % 2 ^ 5 * 2 ^ 11
    + i.oe % 2 * 2 ^ 10
    + i.xo % 2 ^ 9 * 2
    + i.rc % 2

-- The registers of `vmm_regs32_t` that the program sets.
pub record Regs : Type 0 where
  pub gprs : ℕ → ℕ
  pub pc : ℕ
  pub lr : ℕ

abbrev pub load_four : Addi
load_four = record { op = 14; rt = 10; ra = 0; si = 4 }

abbrev pub load_five : Addi
load_five = record { op = 14; rt = 11; ra = 0; si = 5 }

abbrev pub skip_illegal : ℕ → Branch
skip_illegal address = record { op = 18; li = u32 (address + 4 * 4) / 2 ^ 2; aa = 1; lk = 0 }

abbrev pub sum_both : Add
sum_both = record { op = 31; rt = 12; ra = 10; rb = 11; oe = 0; xo = 266; rc = 0 }

-- `initGuestText_Dummy`: the text, as words by their index, after the six stores.
unfoldable pub guest_text_dummy : (ℕ → ℕ) → ℕ → ℕ → ℕ
unfolding addi_word branch_word add_word
guest_text_dummy text address =
    let illegal = update (update text 3 0xdeadbeef) 5 0xfeedface in
    let first = update illegal 0 (addi_word load_four) in
    let second = update first 1 (addi_word load_five) in
    let third = update second 2 (branch_word (skip_illegal address)) in
    update third 4 (add_word sum_both)

abbrev pub factorial_ppc32 : List ℕ
factorial_ppc32 =
    0x7c0802a6 ∷ 0xbfc1fff8 ∷ 0x90010008 ∷ 0x9421ffa0 ∷ 0x7c3e0b78 ∷ 0x907e0078 ∷ 0x801e0078
    ∷ 0x2f800000 ∷ 0x419d0010 ∷ 0x38000001 ∷ 0x901e0040 ∷ 0x48000024 ∷ 0x805e0078 ∷ 0x3802ffff
    ∷ 0x7c030378 ∷ 0x4bffffc5 ∷ 0x7c621b78 ∷ 0x801e0078 ∷ 0x7c0201d6 ∷ 0x901e0040 ∷ 0x807e0040
    ∷ 0x80210000 ∷ 0x80010008 ∷ 0x7c0803a6 ∷ 0xbbc1fff8 ∷ 0x4e800020 ∷ []

-- `memcpy` of a list of words, from index `i` on.
unfoldable pub copy_words : (ℕ → ℕ) → ℕ → List ℕ → ℕ → ℕ
copy_words text i [] = text
copy_words text i (w ∷ ws) = copy_words (update text i w) (i + 1) ws

-- `initGuestText_Factorial`: the text, the argument in GPR3 and the link register.
unfoldable pub guest_text_factorial : (ℕ → ℕ) → ℕ → ℕ → Regs → (ℕ → ℕ) × Regs
unfolding copy_words
guest_text_factorial text page_size address regs = (
  copy_words text 0 factorial_ppc32,
  record regs { gprs = update regs.gprs 3 10; lr = u32 (address + page_size - 4) },
)
