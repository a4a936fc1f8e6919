-- ===== src/PiFile/Held.antt =====
-- libpisock/pi-file.c: a structure for writing, the data that it holds, and its parts in a file.
use pilot_link.Base.{
  ℕ, zero, suc, ◌+◌, ◌^◌, ◌≤◌, ◌<◌, true, List, [], ◌∷◌, ◌++◌, Option, some, ◌≡◌, refl, sym, ap,
  ◌∙◌, arith, length, All,
}
use mathlib.Core.List.{append-nil, append_assoc}
use pilot_link.Base.Int.{ℤ, pos, negsuc, low32}
use pilot_link.AppInfo.{read_block}
use pilot_link.AppInfo.RoundTrip.{read_block-exact}
use pilot_link.Buffer.{Buffer}
use pilot_link.Buffer.Append.{read_bytes_lem}
use pilot_link.Buffer.Blocks.{IsValid, contents}
use pilot_link.PiFile.{Block, null_block, PiFile, is_resource}
use pilot_link.PiFile.Build.{freed}
use pilot_link.PiFile.Headers.{InHeader, kept_info, parsed_header}
use pilot_link.PiFile.Indexes.{InIndex, Sized, joined, all_bytes}
use pilot_link.PiFile.Loaded.{as_block, head}
use pilot_link.PiFile.Write.{offset_or, block_bytes, buffered, first_offset, Piece}

-- A structure for writing that holds these records' data and the bytes of the two blocks, in a
-- file of less than 2 ^ 31 bytes.
pub record Writable (pf : PiFile) (data_ : List (List ℕ)) (app sort : List ℕ) : Type 0 where
  pub writing : pf.for_writing ≡ true
  pub of_kind : pf.resource_flag ≡ is_resource pf.info.flags
  pub no_more_lists : pf.next_record_list_id ≡ 0
  pub info_fits : InHeader pf.info
  pub seed_bits : pf.unique_id_seed < 2 ^ 32
  pub count_bits : length pf.entries < 2 ^ 16
  pub entries_fit : All InIndex pf.entries
  pub sizes : Sized pf.entries data_
  pub tmpbuf : Buffer
  pub has_tmpbuf : pf.tmpbuf ≡ some tmpbuf
  pub tmpbuf_valid : IsValid tmpbuf
  pub data_held : contents tmpbuf ≡ joined data_
  pub app_held : pf.app_info ≡ as_block app
  pub app_size : pf.app_info_size ≡ pos (length app)
  pub sort_held : pf.sort_info ≡ as_block sort
  pub sort_size : pf.sort_info_size ≡ pos (length sort)
  pub total : first_offset pf + length app + length sort + length (joined data_) < 2 ^ 31

-- Where the first record's data begin.
abbrev pub start_of : PiFile → (app sort : List ℕ) → ℕ
start_of pf app sort = first_offset pf + length app + length sort

block_bytes-as_block : (one : List ℕ) → block_bytes (as_block one) (pos (length one)) ≡ some one
unfolding block_bytes
block_bytes-as_block [] = refl
block_bytes-as_block (b ∷ one) =
    ap (read_block (length (b ∷ one))) (sym (append-nil (b ∷ one)))
    ∙ read_block-exact (length (b ∷ one)) (b ∷ one) [] refl

pub block_bytes-held :
    (held : Block) (size : ℤ) (one : List ℕ)
    → held ≡ as_block one
    → size ≡ pos (length one)
    → block_bytes held size ≡ some one
block_bytes-held held size one h s = rw (h, s) (block_bytes-as_block one)

pub freed-as_block :
    (held : Block) (one : List ℕ) → held ≡ as_block one → (gone : Block) × (freed held ≡ some gone)
unfolding freed
freed-as_block held [] h = (null_block, ap freed h)
freed-as_block held (b ∷ one) h = (Block.dangling, ap freed h)

pub buffered-valid :
    (tmpbuf : Option Buffer) (b : Buffer) (bytes : List ℕ)
    → tmpbuf ≡ some b
    → IsValid b
    → contents b ≡ bytes
    → buffered tmpbuf ≡ some bytes
buffered-valid tmpbuf b bytes h v e =
    ap buffered h ∙ read_bytes_lem b.bytes b.allocated b.used v ∙ ap some e

pub positive : (pf : PiFile) → 0 < first_offset pf
unfolding first_offset
positive pf = omega arith

pub offset_or-le : (size : ℤ) (offset : ℕ) → offset_or size offset ≤ offset
offset_or-le (pos zero) offset = omega arith
offset_or-le (pos (suc n)) offset = omega arith
offset_or-le (negsuc n) offset = omega arith

pub parsed_header-head :
    (pf : PiFile) (first : ℕ) (app sort : List ℕ)
    → pf.app_info_size ≡ pos (length app)
    → pf.sort_info_size ≡ pos (length sort)
    → low32 pf.app_info_size ≡ length app
    → pf.next_record_list_id ≡ 0
    → parsed_header pf first
      ≡ head (kept_info pf.info) pf.unique_id_seed (length pf.entries) first app sort
parsed_header-head pf first app sort a s l n = rw (l, a, s, n) refl

pub all_bytes-append : (xs ys : List Piece) → all_bytes (xs ++ ys) ≡ all_bytes xs ++ all_bytes ys
all_bytes-append [] ys = refl
all_bytes-append (x ∷ xs) ys =
    ap (λ r. x.1 ++ r) (all_bytes-append xs ys)
    ∙ sym (append_assoc (x.1) (all_bytes xs) (all_bytes ys))
