-- ===== src/Vmm/Demo.antt =====
-- 6-51/vmachmon32.c: what the guest of the first demo does, by the meaning of its four instructions.
use mac_os_x_internal.Prelude.{
  ℕ, zero, suc, ◌+◌, ◌-◌, ◌*◌, ◌/◌, ◌%◌, ◌^◌, ◌<◌, ◌≡◌, arith, refl, Option, none, some, ◌==◌,
  if◌then◌else◌, ltb, u32, update, ◌&&◌, ap, ◌∙◌,
}
use mac_os_x_internal.Vmm.Code.{
  Regs, Addi, Branch, Add, addi_word, branch_word, add_word, guest_text_dummy, load_four, load_five,
  skip_illegal, sum_both,
}

-- The fields of an instruction word, by the three templates.
abbrev pub opcode : ℕ → ℕ
opcode w = w / 2 ^ 26

abbrev pub addi_fields : ℕ → Addi
addi_fields w = record {
  op = w / 2 ^ 26;
  rt = w / 2 ^ 21 % 2 ^ 5;
  ra = w / 2 ^ 16 % 2 ^ 5;
  si = w % 2 ^ 16;
}

abbrev pub branch_fields : ℕ → Branch
branch_fields w = record { op = w / 2 ^ 26; li = w / 2 ^ 2 % 2 ^ 24; aa = w / 2 % 2; lk = w % 2 }

abbrev pub add_fields : ℕ → Add
add_fields w = record {
  op = w / 2 ^ 26;
  rt = w / 2 ^ 21 % 2 ^ 5;
  ra = w / 2 ^ 16 % 2 ^ 5;
  rb = w / 2 ^ 11 % 2 ^ 5;
  oe = w / 2 ^ 10 % 2;
  xo = w / 2 % 2 ^ 9;
  rc = w % 2;
}

addi_fields-addi_word :
    (i : Addi)
    → i.op < 2 ^ 6
    → i.rt < 2 ^ 5
    → i.ra < 2 ^ 5
    → i.si < 2 ^ 16
    → addi_fields (addi_word i) ≡ i
unfolding addi_word
addi_fields-addi_word i a b c d = ground arith

add_fields-add_word :
    (i : Add)
    → i.op < 2 ^ 6
    → i.rt < 2 ^ 5
    → i.ra < 2 ^ 5
    → i.rb < 2 ^ 5
    → i.oe < 2
    → i.xo < 2 ^ 9
    → i.rc < 2
    → add_fields (add_word i) ≡ i
unfolding add_word
add_fields-add_word i a b c d e f g = ground arith

branch_fields-branch_word :
    (i : Branch)
    → i.op < 2 ^ 6
    → i.li < 2 ^ 24
    → i.aa < 2
    → i.lk < 2
    → branch_fields (branch_word i) ≡ i
unfolding branch_word
branch_fields-branch_word i a b c d = ground arith

-- The sign extension of an immediate of 16 bits to 32 bits.
abbrev pub extended : ℕ → ℕ
extended si = if ltb si (2 ^ 15) then si else si + 2 ^ 32 - 2 ^ 16

abbrev pub register_or_zero : Regs → ℕ → ℕ
register_or_zero r ra = if ra == 0 then 0 else r.gprs ra

-- The address that a branch goes to, LI with two zero bits and extended to 32 bits.
abbrev pub branch_address : Branch → ℕ
branch_address b = if ltb b.li (2 ^ 23) then b.li * 4 else b.li * 4 + 2 ^ 32 - 2 ^ 26

-- One instruction, `none` if it is none of `addi`, `ba` and `add`.
pub execute : ℕ → Regs → Option Regs
execute w r =
    let next = u32 (r.pc + 4) in
    if opcode w == 14
    then (let i = addi_fields w in
        some (record r {
          pc = next;
          gprs = update r.gprs i.rt (u32 (register_or_zero r i.ra + extended i.si));
        }))
    else if opcode w == 18 && w / 2 % 2 == 1 && w % 2 == 0
    then some (record r { pc = branch_address (branch_fields w) })
    else if opcode w == 31
        && (add_fields w).xo == 266
        && (add_fields w).oe == 0
        && (add_fields w).rc == 0
    then (let i = add_fields w in
        some (record r { pc = next; gprs = update r.gprs i.rt (u32 (r.gprs i.ra + r.gprs i.rb)) }))
    else none

-- The instructions from the program counter on, at most `n` of them; the text lies at `base`.
pub run : ℕ → (ℕ → ℕ) → ℕ → Regs → Option Regs
run zero text base r = some r
run (suc n) text base r = elim (execute (text ((r.pc - base) / 4)) r) [
  | none ↦ none
  | some r' ↦ run n text base r'
]

execute-load_four :
    (r : Regs)
    → execute (addi_word load_four) r
      ≡ some (record r { pc = u32 (r.pc + 4); gprs = update r.gprs 10 4 })
unfolding execute addi_word
execute-load_four r = refl

execute-load_five :
    (r : Regs)
    → execute (addi_word load_five) r
      ≡ some (record r { pc = u32 (r.pc + 4); gprs = update r.gprs 11 5 })
unfolding execute addi_word
execute-load_five r = refl

execute-sum_both :
    (r : Regs)
    → execute (add_word sum_both) r
      ≡ some
          (record r { pc = u32 (r.pc + 4); gprs = update r.gprs 12 (u32 (r.gprs 10 + r.gprs 11)) })
unfolding execute add_word
execute-sum_both r = refl

execute_branch :
    (w : ℕ) (r : Regs)
    → opcode w ≡ 18
    → w / 2 % 2 ≡ 1
    → w % 2 ≡ 0
    → execute w r ≡ some (record r { pc = branch_address (branch_fields w) })
unfolding execute
execute_branch w r e aa lk = ground arith

execute-skip_illegal :
    (a : ℕ) (r : Regs)
    → a % 4 ≡ 0
    → a + 16 < 2 ^ 25
    → execute (branch_word (skip_illegal a)) r ≡ some (record r { pc = a + 16 })
unfolding branch_word
execute-skip_illegal a r aligned near =
    let target : branch_address (branch_fields (branch_word (skip_illegal a))) ≡ a + 16 =
      ground arith in
    execute_branch (branch_word (skip_illegal a)) r (omega arith) (omega arith) (omega arith)
    ∙ ap (λ (t : ℕ). some (record r { pc = t })) target

execute_illegal : (r : Regs) → execute 0xfeedface r ≡ none
unfolding execute
execute_illegal r = refl

module _ (text : ℕ → ℕ) (base : ℕ) (r : Regs) (i w n : ℕ) (place : (r.pc - base) / 4 ≡ i)
    (fetched : text i ≡ w) where
  run_step : {r' : Regs} → execute w r ≡ some r' → run (suc n) text base r ≡ run n text base r'
  unfolding run
  run_step done = ground arith

  run_stop : execute w r ≡ none → run (suc n) text base r ≡ none
  unfolding run
  run_stop stopped = ground arith

-- The registers after the four instructions.
abbrev pub after_dummy : ℕ → Regs → Regs
after_dummy a r = record r {
  pc = u32 (a + 16 + 4);
  gprs = update (update (update r.gprs 10 4) 11 5) 12 9;
}

module _ (text : ℕ → ℕ) (a : ℕ) (r : Regs) (aligned : a % 4 ≡ 0) (near : a + 16 < 2 ^ 25)
    (start : r.pc ≡ a) where
  dummy_reaches :
      (n : ℕ)
      → run (suc (suc (suc (suc n)))) (guest_text_dummy text a) a r
        ≡ run n (guest_text_dummy text a) a (after_dummy a r)
  unfolding guest_text_dummy
  dummy_reaches n =
      run_step (guest_text_dummy text a) a _ 0 (addi_word load_four) _ (omega arith) refl
        (execute-load_four r)
      ∙ run_step (guest_text_dummy text a) a _ 1 (addi_word load_five) _ (omega arith) refl
          (execute-load_five _)
      ∙ run_step (guest_text_dummy text a) a _ 2 (branch_word (skip_illegal a)) _ (omega arith) refl
          (execute-skip_illegal a _ aligned near)
      ∙ run_step (guest_text_dummy text a) a _ 4 (add_word sum_both) _ (omega arith) refl
          (execute-sum_both _)

  -- The text of `initGuestText_Dummy` at a word address below 2 ^ 25 - 16, started at its first word,
  -- loads 4 and 5, passes over the illegal third word, adds the two, and stops at the illegal
  -- instruction in word 5.
  pub dummy_result :
      (run 4 (guest_text_dummy text a) a r ≡ some (after_dummy a r))
      × ((after_dummy a r).pc ≡ a + 20)
      × ((after_dummy a r).gprs 12 ≡ 4 + 5)
      × (run 5 (guest_text_dummy text a) a r ≡ none)
  unfolding guest_text_dummy run
  dummy_result = (
    dummy_reaches 0,
    omega arith,
    refl,
    dummy_reaches 1
        ∙ run_stop (guest_text_dummy text a) a _ 5 0xfeedface 0 (omega arith) refl
            (execute_illegal _),
  )
