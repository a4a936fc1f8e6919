-- ===== src/PiFile/Write.antt =====
-- libpisock/pi-file.c: pi_file_close, which writes a file that was created.
use pilot_link.Base.{
  ℕ, ◌+◌, ◌*◌, Bool, true, false, not, ◌&&◌, ◌||◌, List, [], ◌∷◌, ◌++◌, Option, none, some, length,
  leb, if◌then◌else◌,
}
use pilot_link.Base.Int.{ℤ, pos, negsuc, low32}
use pilot_link.Base.Partial.{◌>>=◌ as ◌>>?◌}
use pilot_link.AppInfo.{read_block}
use pilot_link.Buffer.{Buffer, read_used}
use pilot_link.Macros.{set_byte, set_short, set_treble, set_long}
use pilot_link.PiFile.{
  Entry, Block, null_block, dangling, block, PiFile, ent_hdr_size, unix_time_to_pilot_time,
  err_file_invalid, err_file_error,
}
use pilot_link.PiFile.Build.{equals_zero, freed}

-- What the file system does: a regular file of the name has been removed. Whether fopen succeeds, and whether bytes are written behind those that were.
pub record Disk : Type 0 where
  pub opens : Bool
  pub takes : (written : List ℕ) → List ℕ → Bool

-- An offset, or 0 where the size is 0.
abbrev pub offset_or : (size : ℤ) → (offset : ℕ) → ℕ
offset_or size offset = if equals_zero size then 0 else offset

-- The `int` offset is its bits; `none` where the name is too short.
unfoldable pub file_header : PiFile → (offset : ℕ) → Option (List ℕ)
file_header pf offset =
    let info = pf.info in
    read_block 32 info.name >>? λ name. some (
      name
      ++ (set_short info.flags
          ++ (set_short info.version
              ++ (set_long (unix_time_to_pilot_time info.create_date)
                  ++ (set_long (unix_time_to_pilot_time info.modify_date)
                      ++ (set_long (unix_time_to_pilot_time info.backup_date)
                          ++ (set_long info.modnum
                              ++ (set_long (offset_or pf.app_info_size offset)
                                  ++ (set_long (
                                        offset_or pf.sort_info_size
                                          (offset + low32 pf.app_info_size))
                                      ++ (set_long info.kind
                                          ++ (set_long info.creator
                                              ++ (set_long pf.unique_id_seed
                                                  ++ (set_long pf.next_record_list_id
                                                      ++ set_short (length pf.entries))))))))))))))

unfoldable pub entry_bytes : (resource : Bool) → (offset : ℕ) → Entry → List ℕ
entry_bytes true offset entry =
    set_long entry.kind ++ (set_short entry.resource_id ++ set_long offset)
entry_bytes false offset entry = set_long offset ++ (set_byte entry.attrs ++ set_treble entry.uid)

-- What fwrite is given, and whether its failure ends the writing at once.
abbrev pub Piece : Type 0
Piece = Bool × List ℕ

unfoldable pub index_pieces : (resource : Bool) → (offset : ℕ) → List Entry → List Piece
index_pieces resource offset [] = []
index_pieces resource offset (entry ∷ entries) =
    (true, entry_bytes resource offset entry)
    ∷ index_pieces resource (offset + low32 entry.size) entries

-- A block's bytes: what a freed one held is not read where its size is 0.
unfoldable pub block_bytes : Block → (size : ℤ) → Option (List ℕ)
block_bytes null_block size = some []
block_bytes dangling size = if equals_zero size then some [] else none
block_bytes (block bytes) (pos n) = read_block n bytes
block_bytes (block bytes) (negsuc n) = none

abbrev pub buffered : Option Buffer → Option (List ℕ)
buffered none = none
buffered (some tmpbuf) = read_used tmpbuf

unfoldable pub first_offset : PiFile → ℕ
first_offset pf = 78 + length pf.entries * ent_hdr_size pf.resource_flag + 2

unfoldable pub pieces : PiFile → Option (List Piece)
pieces pf = file_header pf (first_offset pf) >>? λ header.
    block_bytes pf.app_info pf.app_info_size >>? λ app_info.
    block_bytes pf.sort_info pf.sort_info_size >>? λ sort_info. buffered pf.tmpbuf >>? λ data_.
    some (
      (true, header)
      ∷ (index_pieces pf.resource_flag
            (first_offset pf + low32 pf.app_info_size + low32 pf.sort_info_size) pf.entries
          ++ ((false, 0 ∷ 0 ∷ []) ∷ (true, app_info) ∷ (true, sort_info) ∷ (false, data_) ∷ [])))

-- The code, and the bytes written. An empty piece is written always; a failure that does not end
-- the writing is noted by ferror.
unfoldable pub put_all : Disk → (written : List ℕ) → (failed : Bool) → List Piece → ℤ × List ℕ
put_all disk written failed [] = (if failed then err_file_error else pos 0, written)
put_all disk written failed ((must, []) ∷ more) = put_all disk written failed more
put_all disk written failed ((must, b ∷ bytes) ∷ more) =
    let ok = disk.takes written (b ∷ bytes) in
    let rest =
      put_all disk (if ok then written ++ (b ∷ bytes) else written) (failed || not ok) more in
    if must && not ok then (err_file_error, written) else rest

-- `none` is undefined behaviour.
unfoldable pub pi_file_close_for_write : Disk → PiFile → Option (ℤ × List ℕ)
pi_file_close_for_write disk pf =
    if leb (64 * 1024) (length pf.entries)
    then some (err_file_invalid, [])
    else if not disk.opens
    then some (err_file_error, [])
    else (pieces pf >>? λ all. some (put_all disk [] false all))

-- Each block that is not NULL is freed.
unfoldable pub pi_file_free : PiFile → Option (Unit {0})
pi_file_free pf = freed pf.app_info >>? λ app_info. freed pf.sort_info >>? λ sort_info. some tt

abbrev pub close_result : Disk → PiFile → Option (ℤ × List ℕ)
close_result disk pf = if pf.for_writing then pi_file_close_for_write disk pf else some (pf.err, [])

-- The structure is not NULL.
unfoldable pub pi_file_close : Disk → PiFile → Option (ℤ × List ℕ)
pi_file_close disk pf = close_result disk pf >>? λ r. pi_file_free pf >>? λ gone. some r
