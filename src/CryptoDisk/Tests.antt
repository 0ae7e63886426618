-- ===== src/CryptoDisk/Tests.antt =====
-- 10-36/SimpleCryptoDisk.cpp at concrete inputs.
use mac_os_x_internal.Prelude.{ℕ, ◌-◌, ◌^◌, ◌≡◌, refl, arith, [], ◌∷◌, none, some, true}
use mac_os_x_internal.CryptoDisk.{
  Buffer, Driver, Context, read, write, read_write_completion, fix_buffer_user_write,
  fix_write_loop, invert_block, start, free, init,
}
use mac_os_x_internal.CryptoDisk.Cipher.{read_write_completion-write}
use mac_os_x_internal.CryptoDisk.Requests.{
  Session, Reach, here, next, reads, writes, completes, idle, IsBalanced, Reach-IsBalanced,
}

-- A block and a half of the words 5; the memory of a write holds 9 before.
abbrev fives : Buffer
fives = record { length = 768; word = λ k. 5 }

abbrev fresh : ℕ → ℕ
fresh k = 9

abbrev asked : Driver
asked = (idle (λ b. fives)).driver

abbrev memory : Buffer
memory = fix_buffer_user_write fives (record { length = 768; word = fresh })

last_words : memory.word 63 ≡ 2 ^ 64 - 6
unfolding fix_buffer_user_write fix_write_loop invert_block
last_words = refl

stale_words : memory.word 64 ≡ 9
unfolding fix_buffer_user_write fix_write_loop invert_block
stale_words = refl

-- One block of the words 5, and the memory that is written for it.
abbrev block : Buffer
block = record fives { length = 512 }

abbrev blocks : Driver
blocks = (idle (λ b. block)).driver

abbrev written : Buffer
written = fix_buffer_user_write block (record { length = 512; word = fresh })

-- The provider has filled buffer 2 with what was written.
abbrev filled : Driver
filled = (idle (λ b. record { length = 512; word = written.word })).driver

read_write_completion-write_example :
    ((read_write_completion
          (record { buffer = 2; memory = none; completion = 8 })
          0
          512
          filled).buffers
        2).word
      3
    ≡ 5
unfolding write
read_write_completion-write_example =
    read_write_completion-write fresh 0 1 7 blocks filled written 2 8 0 512 refl refl
      (λ k. omega arith) refl (λ k inside. refl) 3 (omega arith)

-- A read is followed by a write, which completes first.
abbrev first : Session
first = record { requested = 7 ∷ []; driver = (read 0 1 7 asked).0 }

abbrev second : Session
second = record { requested = 8 ∷ 7 ∷ []; driver = (write fresh 0 2 8 first.driver).0 }

abbrev reading : Context
reading = record { buffer = 1; memory = none; completion = 7 }

abbrev writing : Context
writing = record { buffer = 2; memory = some memory; completion = 8 }

abbrev third : Session
third = record second {
  driver = read_write_completion writing 0 768 (record second.driver { pending = reading ∷ [] });
}

third-Reach : Reach (idle (λ b. fives)) third
unfolding read write
third-Reach =
    next (next (next here (reads 0 1 7 refl)) (writes fresh 0 2 8 refl))
      (completes [] (reading ∷ []) writing 0 768 refl refl)

Reach-IsBalanced_example : IsBalanced third
Reach-IsBalanced_example = Reach-IsBalanced (λ b. fives) third-Reach

released : free (start true true true init).0 ≡ record { filtered_media = true; media = 0 }
unfolding free start
released = refl
