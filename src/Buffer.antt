-- ===== src/Buffer.antt =====
-- libpisock/pi-buffer.c: growing byte buffers. `size_t` has 64 bits.
pub mod Blocks
pub mod Expect
pub mod Append
pub mod Tests
use pilot_link.Base.{
  ℕ, ◌+◌, ◌-◌, ◌%◌, ◌^◌, ◌≤◌, ◌<◌, Bool, true, false, List, [], ◌∷◌, ◌++◌, Option, none, some, leb,
  ltb, length, take, drop, ◌==◌, ◌≡◌, if◌then◌else◌,
}
use pilot_link.Base.Partial.{◌>>=◌}

-- `data` is the allocated block, or NULL; `allocated` is the size that the buffer remembers.
pub record Buffer : Type 0 where
  pub bytes : Option (List ℕ)
  pub allocated : ℕ
  pub used : ℕ

-- malloc: a block of `n` bytes, of any contents, or NULL.
pub record Allocator : Type 0 where
  pub malloc : ℕ → Option (List ℕ)
  pub malloc_size : (n : ℕ) (block : List ℕ) → malloc n ≡ some block → length block ≡ n

abbrev pub size_mod : ℕ
size_mod = 2 ^ 64

-- realloc keeps what fits of the old block.
unfoldable pub carry_over : ℕ → List ℕ → Option (List ℕ) → Option (List ℕ)
carry_over n old none = none
carry_over n old (some block) = some (take n old ++ drop (length old) block)

-- memcpy of `bytes` to `data + at`
unfoldable pub copy_to : Option (List ℕ) → ℕ → List ℕ → Option (Option (List ℕ))
copy_to block at [] = some block
copy_to none at (b ∷ bytes) = none
copy_to (some block) at (b ∷ bytes) =
    if leb (at + length (b ∷ bytes)) (length block)
    then some (some (take at block ++ (b ∷ bytes) ++ drop (at + length (b ∷ bytes)) block))
    else none

abbrev pub null_buffer : Buffer
null_buffer = record { bytes = none; allocated = 0; used = 0 }

unfoldable pub extended : ℕ → ℕ → Option (List ℕ) → Bool × Buffer
extended total used none = (false, null_buffer)
extended total used (some block) =
    (true, record { bytes = some block; allocated = total; used = used })

unfoldable pub put_in : List ℕ → Bool × Buffer → Option (Bool × Buffer)
put_in data_in (false, b) = some (false, b)
put_in data_in (true, b) = do
  block ← copy_to b.bytes b.used data_in
  some (true, record b { bytes = block; used = (b.used + length data_in) % size_mod })

-- The used bytes: `none` where they reach past the block.
unfoldable pub read_bytes : Option (List ℕ) → ℕ → Option (List ℕ)
read_bytes none used = if used == 0 then some [] else none
read_bytes (some block) used = if leb used (length block) then some (take used block) else none

abbrev pub read_used : Buffer → Option (List ℕ)
read_used b = read_bytes b.bytes b.used

module _ (m : Allocator) where
  unfoldable pub pi_buffer_new : ℕ → Option Buffer
  pi_buffer_new capacity =
      let size = if capacity == 0 then 16 else capacity in
      do block ← m.malloc size; some (record { bytes = some block; allocated = size; used = 0 })

  unfoldable pub grow : Option (List ℕ) → ℕ → ℕ → Option (List ℕ)
  grow none total expect = m.malloc expect
  grow (some old) total expect = carry_over total old (m.malloc total)

  -- Whether the pointer that it returns is not NULL, and the buffer afterwards.
  unfoldable pub pi_buffer_expect : Buffer → ℕ → Bool × Buffer
  pi_buffer_expect b expect =
      if leb expect ((b.allocated + size_mod - b.used) % size_mod)
      then (true, b)
      else extended ((b.used + expect) % size_mod) b.used
          (grow b.bytes ((b.used + expect) % size_mod) expect)

  unfoldable pub pi_buffer_append : Buffer → List ℕ → Option (Bool × Buffer)
  pi_buffer_append b data_in = put_in data_in (pi_buffer_expect b (length data_in))

  unfoldable pub pi_buffer_append_buffer : Buffer → Buffer → Option (Bool × Buffer)
  pi_buffer_append_buffer dest src = do data_in ← read_used src; pi_buffer_append dest data_in

  unfoldable pub shrunk : Option (List ℕ) → Option (List ℕ)
  shrunk none = m.malloc 65535
  shrunk (some old) = carry_over 65535 old (m.malloc 65535)

  unfoldable pub pi_buffer_clear : Buffer → Buffer
  pi_buffer_clear b =
      if ltb 65535 b.allocated then (extended 65535 0 (shrunk b.bytes)).1 else record b { used = 0 }
