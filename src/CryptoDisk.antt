-- ===== src/CryptoDisk.antt =====
-- 10-36/SimpleCryptoDisk.cpp: a filter that complements the data between a client and a disk. Each request has a context
-- that its completion finds again.
pub mod Cipher
pub mod Requests
mod Tests
use mac_os_x_internal.Prelude.{
  ℕ, zero, suc, ◌+◌, ◌-◌, ◌*◌, ◌/◌, ◌%◌, ◌^◌, Bool, true, false, not, ◌&&◌, List, [], ◌∷◌, Option,
  none, some, ltb, leb, ◌==◌, if◌then◌else◌, update,
}

-- A memory descriptor: its length in bytes, and its contents as words of 64 bits by their index.
pub record Buffer : Type 0 where
  pub length : ℕ
  pub word : ℕ → ℕ

-- `~` on a `UInt64`.
abbrev pub invert : ℕ → ℕ
invert w = 2 ^ 64 - 1 - w

-- The words of `byteBlock`.
abbrev pub block_words : ℕ
block_words = 64

-- `readBytes(i * 512, byteBlock, 512)`.
abbrev pub read_bytes : ℕ → (ℕ → ℕ) → ℕ → ℕ
read_bytes i words j = words (block_words * i + j)

-- `writeBytes(i * 512, byteBlock, 512)`.
abbrev pub write_bytes : ℕ → (ℕ → ℕ) → (ℕ → ℕ) → ℕ → ℕ
write_bytes i byte_block words k =
    if leb (block_words * i) k && ltb k (block_words * i + block_words)
    then byte_block (k - block_words * i)
    else words k

-- The loop on `j`; `rounds` is `64 - j`.
unfoldable pub invert_block : (rounds j : ℕ) → (ℕ → ℕ) → ℕ → ℕ
invert_block zero j byte_block = byte_block
invert_block (suc rounds) j byte_block =
    invert_block rounds (j + 1) (update byte_block j (invert (byte_block j)))

-- The loop on `i` of `fixBufferUserRead`; `rounds` is `length - i`.
unfoldable pub fix_read_loop : (rounds i : ℕ) → (ℕ → ℕ) → ℕ → ℕ
fix_read_loop zero i words = words
fix_read_loop (suc rounds) i words =
    fix_read_loop rounds (i + 1)
      (write_bytes i (invert_block block_words 0 (read_bytes i words)) words)

unfoldable pub fix_buffer_user_read : Buffer → Buffer
fix_buffer_user_read buffer = record buffer {
  word = fix_read_loop (buffer.length / 512) 0 buffer.word;
}

-- The loop on `i` of `fixBufferUserWrite`.
unfoldable pub fix_write_loop : (rounds i : ℕ) → (source words : ℕ → ℕ) → ℕ → ℕ
fix_write_loop zero i source words = words
fix_write_loop (suc rounds) i source words =
    fix_write_loop rounds (i + 1) source
      (write_bytes i (invert_block block_words 0 (read_bytes i source)) words)

unfoldable pub fix_buffer_user_write : (buffer_r buffer_w : Buffer) → Buffer
fix_buffer_user_write buffer_r buffer_w = record buffer_w {
  word = fix_write_loop (buffer_r.length / 512) 0 buffer_r.word buffer_w.word;
}

-- `SimpleCryptoDiskContext`: the client's buffer, by its number; the memory of a write, with its two descriptors; and the client's
-- completion, by its number, 0 for none.
pub record Context : Type 0 where
  pub buffer : ℕ
  pub memory : Option Buffer
  pub completion : ℕ

-- The driver: the client's buffers, the contexts that the provider holds, and how many blocks of `IOMalloc` and memory descriptors
-- of its own are alive; and the completions that it has run, each with its status and its byte count, the last first.
pub record Driver : Type 0 where
  pub buffers : ℕ → Buffer
  pub pending : List Context
  pub blocks : ℕ
  pub descriptors : ℕ
  pub finished : List (ℕ × ℕ × ℕ)

-- What the provider is asked for: a read into a buffer, or a write of memory.
pub data Submitted : Type 0 where
  to_read : (byte_start buffer : ℕ) → Submitted
  to_write : (byte_start : ℕ) → Buffer → Submitted

-- `read`: a context is made and the request handed over.
unfoldable pub read : (byte_start buffer completion : ℕ) → Driver → Driver × Submitted
read byte_start buffer completion d = (
  record d {
    pending = record { buffer = buffer; memory = none; completion = completion } ∷ d.pending;
    blocks = d.blocks + 1;
  },
  to_read byte_start buffer,
)

-- `write`: `fresh` is the memory as `IOMalloc` gives it; its two descriptors refer to it.
unfoldable pub write :
    (fresh : ℕ → ℕ) → (byte_start buffer completion : ℕ) → Driver → Driver × Submitted
write fresh byte_start buffer completion d =
    let source = d.buffers buffer in
    let fixed = fix_buffer_user_write source (record { length = source.length; word = fresh }) in
    (
      record d {
        pending =
            record { buffer = buffer; memory = some fixed; completion = completion } ∷ d.pending;
        blocks = d.blocks + 2;
        descriptors = d.descriptors + 2;
      },
      to_write byte_start fixed,
    )

-- The end of `SCDReadWriteCompletion`: the context is freed, and the client's completion is run, if there is one.
unfoldable pub finish : Context → (status count : ℕ) → Driver → Driver
finish context status count d =
    let freed = record d { blocks = d.blocks - 1 } in
    if context.completion == 0
    then freed
    else record freed { finished = (context.completion, status, count) ∷ d.finished }

-- `SCDReadWriteCompletion`, for a context that the provider hands back.
unfoldable pub read_write_completion : Context → (status count : ℕ) → Driver → Driver
read_write_completion context status count d = elim context.memory [
  | none ↦ finish context status count (record d {
    buffers = update d.buffers context.buffer (fix_buffer_user_read (d.buffers context.buffer));
  })
  | some memory ↦
      finish context status count
        (record d { descriptors = d.descriptors - 2; blocks = d.blocks - 1 })
]

-- The object: `_filteredMedia`, and the media objects that were made and are not released.
pub record Filter : Type 0 where
  pub filtered_media : Bool
  pub media : ℕ

-- `init`, when that of the superclass has succeeded.
abbrev pub init : Filter
init = record { filtered_media = false; media = 0 }

-- `start`, by whether the superclass starts, the media object is made, and it is initialised.
unfoldable pub start : (super_ok made init_ok : Bool) → Filter → Filter × Bool
start super_ok made init_ok f =
    if not super_ok
    then (f, false)
    else if not made
    then (f, false)
    else if not init_ok
    then (f, false)
    else (record { filtered_media = true; media = f.media + 1 }, true)

-- `free`.
unfoldable pub free : Filter → Filter
free f = if f.filtered_media then record f { media = f.media - 1 } else f
