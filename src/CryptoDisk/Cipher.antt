-- ===== src/CryptoDisk/Cipher.antt =====
-- 10-36/SimpleCryptoDisk.cpp: what the disk holds, and what is read back.
use mac_os_x_internal.Prelude.{
  ℕ, zero, suc, ◌+◌, ◌-◌, ◌*◌, ◌/◌, ◌%◌, ◌^◌, ◌≤◌, ◌<◌, ◌≡◌, refl, arith, none, ltb, leb, ◌&&◌,
  if◌then◌else◌, update,
}
use mac_os_x_internal.CryptoDisk.{
  Buffer, invert, block_words, read_bytes, write_bytes, invert_block, fix_read_loop,
  fix_buffer_user_read, fix_write_loop, fix_buffer_user_write, Driver, write, to_write,
  read_write_completion, finish,
}

-- From word `j` on, the loop complements as many words as it has rounds.
invert_block_lem :
    (rounds j : ℕ) (b : ℕ → ℕ) (k : ℕ)
    → invert_block rounds j b k ≡ (if leb j k && ltb k (j + rounds) then invert (b k) else b k)
unfolding invert_block
invert_block_lem zero j b k = ground arith
invert_block_lem (suc rounds) j b k =
    ground (arith, invert_block_lem rounds (j + 1) (update b j (invert (b j))) k)

-- One block of the buffer.
block_lem :
    (i : ℕ) (source words : ℕ → ℕ) (k : ℕ)
    → write_bytes i (invert_block block_words 0 (read_bytes i source)) words k
      ≡ (if leb (64 * i) k && ltb k (64 * i + 64) then invert (source k) else words k)
block_lem i source words k =
    ground (arith, invert_block_lem 64 0 (read_bytes i source) (k - 64 * i))

fix_write_loop_lem :
    (rounds i : ℕ) (source words : ℕ → ℕ) (k : ℕ)
    → fix_write_loop rounds i source words k
      ≡ (if leb (64 * i) k && ltb k (64 * (i + rounds)) then invert (source k) else words k)
unfolding fix_write_loop
fix_write_loop_lem zero i source words k = ground arith
fix_write_loop_lem (suc rounds) i source words k = ground (
  arith,
  fix_write_loop_lem rounds (i + 1) source
      (write_bytes i (invert_block block_words 0 (read_bytes i source)) words) k,
  block_lem i source words k,
)

fix_read_loop_lem :
    (rounds i : ℕ) (words : ℕ → ℕ) (k : ℕ)
    → fix_read_loop rounds i words k
      ≡ (if leb (64 * i) k && ltb k (64 * (i + rounds)) then invert (words k) else words k)
unfolding fix_read_loop
fix_read_loop_lem zero i words k = ground arith
fix_read_loop_lem (suc rounds) i words k = ground (
  arith,
  fix_read_loop_lem rounds (i + 1)
      (write_bytes i (invert_block block_words 0 (read_bytes i words)) words) k,
  block_lem i words words k,
)

-- How many words of a buffer stand in whole blocks of 512 bytes.
abbrev pub covered : Buffer → ℕ
covered buffer = 64 * (buffer.length / 512)

fix_read_word :
    (buffer : Buffer) (k : ℕ)
    → (fix_buffer_user_read buffer).word k
      ≡ (if ltb k (covered buffer) then invert (buffer.word k) else buffer.word k)
unfolding fix_buffer_user_read
fix_read_word buffer k = ground (arith, fix_read_loop_lem (buffer.length / 512) 0 buffer.word k)

fix_write_word :
    (source target : Buffer) (k : ℕ)
    → (fix_buffer_user_write source target).word k
      ≡ (if ltb k (covered source) then invert (source.word k) else target.word k)
unfolding fix_buffer_user_write
fix_write_word source target k =
    ground (arith, fix_write_loop_lem (source.length / 512) 0 source.word target.word k)

fix_write_length :
    (source target : Buffer) → (fix_buffer_user_write source target).length ≡ target.length
unfolding fix_buffer_user_write
fix_write_length source target = refl

module _ (fresh : ℕ → ℕ) (start buffer completion : ℕ) (d : Driver) where
  -- The memory that `write` hands to the provider holds the complement of the client's words in every whole block of 512 bytes;
  -- behind the last whole block it holds what `IOMalloc` has left there. It has the length of the client's buffer, which keeps its
  -- contents.
  pub write_words :
      (m : Buffer)
      → (write fresh start buffer completion d).1 ≡ to_write start m
      → (m.length ≡ (d.buffers buffer).length)
        × ((k : ℕ) → k < covered (d.buffers buffer) → m.word k ≡ invert ((d.buffers buffer).word k))
        × ((k : ℕ) → covered (d.buffers buffer) ≤ k → m.word k ≡ fresh k)
        × ((write fresh start buffer completion d).0.buffers ≡ d.buffers)
  unfolding write
  write_words m e =
      let source = d.buffers buffer in
      let target : Buffer = record { length = source.length; word = fresh } in
      let same : fix_buffer_user_write source target ≡ m = cc e in
      rw (← same) (
        fix_write_length source target,
        (λ k inside. ground (arith, fix_write_word source target k)),
        (λ k outside. ground (arith, fix_write_word source target k)),
        refl,
      )

-- What was written is read back: where a buffer of whole blocks, of words of 64 bits, is written, and a later read of the same
-- length is filled by the provider with the words that it was given, then the completion of that read leaves the words of the
-- first buffer in the second. Neither request's status and count matter, nor what happens to the driver in between.
pub read_write_completion-write :
    (fresh : ℕ → ℕ) (start b completion : ℕ) (d d' : Driver) (m : Buffer)
    (c completion' status count : ℕ)
    → (write fresh start b completion d).1 ≡ to_write start m
    → (d.buffers b).length % 512 ≡ 0
    → ((k : ℕ) → (d.buffers b).word k < 2 ^ 64)
    → (d'.buffers c).length ≡ (d.buffers b).length
    → ((k : ℕ) → 8 * k < (d'.buffers c).length → (d'.buffers c).word k ≡ m.word k)
    → (k : ℕ) → 8 * k < (d.buffers b).length
    → ((read_write_completion
            (record { buffer = c; memory = none; completion = completion' })
            status
            count
            d').buffers
          c).word
        k
      ≡ (d.buffers b).word k
unfolding read_write_completion finish
read_write_completion-write fresh start b completion d d' m c completion' status count e whole small
      same filled k inside =
    let (_, complemented, _, _) = write_words fresh start b completion d m e in
    ground (arith, fix_read_word (d'.buffers c) k, complemented k, filled k, small k)
