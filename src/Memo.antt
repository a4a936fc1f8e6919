-- ===== src/Memo.antt =====
-- libpisock/memo.c: memo records, packed into buffers.
pub mod RoundTrip
mod Tests
use pilot_link.Base.{
  ℕ, zero, suc, ◌+◌, List, [], ◌∷◌, ◌++◌, Option, none, some, length, ltb, if◌then◌else◌,
}
use pilot_link.Base.Int.{ℤ, pos, negsuc}
use pilot_link.Base.Partial.{◌>>=◌}
use pilot_link.Buffer.{Buffer, Allocator, pi_buffer_expect, copy_to}

-- `text` is a string without its final NUL, or NULL.
pub record Memo : Type 0 where
  pub text : Option (List ℕ)

-- enum memoType has one value; any other `int` may be passed.
pub data MemoType : Type 0 where
  memo_v1 other : MemoType

-- The string that starts a block: `none` where no NUL ends it.
unfoldable pub c_string : List ℕ → Option (List ℕ)
c_string [] = none
c_string (zero ∷ bytes) = some []
c_string (suc b ∷ bytes) = do more ← c_string bytes; some (suc b ∷ more)

unfoldable pub unpack_block : Option (List ℕ) → ℕ → Option (ℤ × Option Memo)
unpack_block none used = some (negsuc 0, none)
unpack_block (some block) used =
    if ltb used 1
    then some (negsuc 0, none)
    else (do string ← c_string block; some (pos 0, some (record { text = some string })))

-- What it returns, and the memo where it sets one. The buffer may be NULL.
unfoldable pub unpack_memo : Option Buffer → MemoType → Option (ℤ × Option Memo)
unpack_memo buffer other = some (negsuc 0, none)
unpack_memo none memo_v1 = some (negsuc 0, none)
unpack_memo (some buffer) memo_v1 = unpack_block buffer.bytes buffer.used

-- The bytes that strcpy writes.
unfoldable pub string_bytes : Option (List ℕ) → List ℕ
string_bytes none = 0 ∷ []
string_bytes (some text) = text ++ (0 ∷ [])

-- What it returns, and the buffer. It does not look at what pi_buffer_expect returns.
unfoldable pub pack_memo : Allocator → Memo → Option Buffer → MemoType → Option (ℤ × Option Buffer)
pack_memo m memo buffer other = some (negsuc 0, buffer)
pack_memo m memo none memo_v1 = some (negsuc 0, none)
pack_memo m memo (some buffer) memo_v1 = do
  block ←
      copy_to (pi_buffer_expect m buffer (length (string_bytes memo.text))).1.bytes 0
        (string_bytes memo.text)
  some (
    pos 0,
    some (record {
      bytes = block;
      allocated = (pi_buffer_expect m buffer (length (string_bytes memo.text))).1.allocated;
      used = length (string_bytes memo.text);
    }),
  )
