-- ===== src/AppInfo.antt =====
-- libpisock/appinfo.c: the category block of an application's information. A pointer is the list of
-- the bytes from it on; `none` is an access past their end.
pub mod Bits
pub mod RoundTrip
pub mod Memo
pub mod MemoRoundTrip
mod Tests
use pilot_link.Base.{
  ℕ, zero, suc, ◌+◌, ◌/◌, ◌%◌, ◌^◌, ◌==◌, List, [], ◌∷◌, ◌++◌, Option, none, some, length, take,
  drop, leb, ltb, if◌then◌else◌,
}
use pilot_link.Base.Partial.{◌>>=◌}
use pilot_link.Macros.{get_byte, get_short, set_byte, set_short}

pub record CategoryAppInfo : Type 0 where
  pub renamed : List ℕ
  pub name : List (List ℕ)
  pub id : List ℕ
  pub last_unique_id : ℕ

-- memcpy of `n` bytes from a pointer
unfoldable pub read_block : ℕ → List ℕ → Option (List ℕ)
read_block n bytes = if leb n (length bytes) then some (take n bytes) else none

unfoldable pub unpack_renamed : (count i rec : ℕ) → List ℕ
unpack_renamed zero i rec = []
unpack_renamed (suc count) i rec =
    (if rec / 2 ^ i % 2 == 1 then 1 else 0) ∷ unpack_renamed count (suc i) rec

unfoldable pub unpack_names : ℕ → List ℕ → Option (List (List ℕ))
unpack_names zero bytes = some []
unpack_names (suc count) bytes = do
  first ← read_block 16 bytes
  more ← unpack_names count (drop 16 bytes)
  some (first ∷ more)

-- What it returns, and the structure where it writes one.
unfoldable pub unpack_category_app_info : List ℕ → ℕ → Option (ℕ × Option CategoryAppInfo)
unpack_category_app_info bytes len = if ltb len 278 then some (0, none) else do
  rec ← get_short bytes
  names ← unpack_names 16 (drop 2 bytes)
  ids ← read_block 16 (drop 258 bytes)
  last ← get_byte (drop 274 bytes)
  some (
    278,
    some (record {
      renamed = unpack_renamed 16 0 rec;
      name = names;
      id = ids;
      last_unique_id = last;
    }),
  )

-- The bits are distinct: `|` adds them.
unfoldable pub pack_renamed : ℕ → List ℕ → ℕ
pack_renamed i [] = 0
pack_renamed i (r ∷ rs) = (if r == 0 then 0 else 2 ^ i) + pack_renamed (suc i) rs

unfoldable pub pack_names : List (List ℕ) → List ℕ
pack_names [] = []
pack_names (first ∷ more) = first ++ pack_names more

unfoldable pub packed : CategoryAppInfo → List ℕ
packed ai =
    set_short (pack_renamed 0 ai.renamed)
    ++ (pack_names ai.name ++ (ai.id ++ (set_byte ai.last_unique_id ++ (0 ∷ 0 ∷ 0 ∷ []))))

-- What it returns, and the memory from the pointer on; the pointer may be NULL.
unfoldable pub pack_category_app_info :
    CategoryAppInfo → Option (List ℕ) → ℕ → Option (ℕ × Option (List ℕ))
pack_category_app_info ai none len = some (278, none)
pack_category_app_info ai (some memory) len =
    if ltb len 278
    then some (0, some memory)
    else if leb 278 (length memory)
    then some (278, some (packed ai ++ drop 278 memory))
    else none
