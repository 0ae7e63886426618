-- ===== src/Frr/Target.antt =====
-- 3-31/frr.c: where the branches that it writes go.
use mac_os_x_internal.Prelude.{
  ℕ, ◌+◌, ◌-◌, ◌*◌, ◌/◌, ◌%◌, ◌^◌, ◌≤◌, ◌<◌, ◌≡◌, ◌≢◌, arith, ltb, if◌then◌else◌, ◌==◌, ◌&&◌, Bool,
  Option, some, none,
}
use mac_os_x_internal.Frr.{branch_word, absolute_branch, branch_mopcode, Branch}

-- The fields of a branch instruction (I-form), read off its word.
abbrev pub decode : ℕ → Branch
decode w = record { op = w / 2 ^ 26; li = w / 2 ^ 2 % 2 ^ 24; aa = w / 2 % 2; lk = w % 2 }

-- The word is an absolute branch without a link: its opcode is 18, AA is 1 and LK is 0.
unfoldable pub is_absolute_branch : ℕ → Bool
is_absolute_branch w = let b = decode w in b.op == branch_mopcode && (b.aa == 1 && b.lk == 0)

-- The address that an absolute branch without a link goes to: LI with two zero bits, and its sign extended to 32 bits; `none` for every other word.
unfoldable pub branch_target : ℕ → Option ℕ
branch_target w =
    let li = (decode w).li in
    if is_absolute_branch w
    then some (if ltb li (2 ^ 23) then li * 4 else li * 4 + 2 ^ 32 - 2 ^ 26)
    else none

-- The word of a branch whose fields fit their widths gives the fields back.
pub decode-branch_word :
    (b : Branch) → b.op < 2 ^ 6 → b.li < 2 ^ 24 → b.aa < 2 → b.lk < 2 → decode (branch_word b) ≡ b
unfolding branch_word
decode-branch_word b p q r s = ground arith

-- Below 2 ^ 25 an absolute branch goes to the word address that it is made for.
pub branch_target-near :
    (a : ℕ)
    → a < 2 ^ 25
    → a % 4 ≡ 0
    → branch_target (branch_word (absolute_branch (a / 2 ^ 2))) ≡ some a
unfolding branch_word branch_target is_absolute_branch
branch_target-near a near aligned = ground arith

-- From 2 ^ 25 up to 2 ^ 27, the bound of the code's test on the word address, the branch to an address does not go there.
pub branch_target-far :
    (a : ℕ)
    → 2 ^ 25 ≤ a
    → a < 2 ^ 27
    → branch_target (branch_word (absolute_branch (a / 2 ^ 2))) ≢ some a
unfolding branch_word branch_target is_absolute_branch
branch_target-far a far test e = ground arith
