-- ===== src/PiFile/Open.antt =====
-- libpisock/pi-file.c: pi_file_open. `none` is the end at `bad`, where NULL is returned.
use pilot_link.Base.{
  ℕ, zero, suc, ◌+◌, ◌*◌, ◌==◌, Bool, true, false, not, ◌||◌, List, [], ◌∷◌, ◌++◌, Option, none,
  some, length, take, drop, leb, if◌then◌else◌,
}
use pilot_link.Base.Int.{ℤ, pos, negsuc, is_neg, ◌+ℤ◌, ◌-ℤ◌, ltb_ℤ, int32, low32}
use pilot_link.Base.Partial.{◌>>=◌ as ◌>>?◌}
use pilot_link.Base.Run.{Run, ◌>>=◌, ◌>>◌, pure, change, checked}
use pilot_link.Buffer.{Allocator}
use pilot_link.Macros.{get_byte, get_short, get_treble, get_long}
use pilot_link.PiFile.{
  DbInfo, Entry, Block, null_block, block, File, PiFile, is_resource, ent_hdr_size,
  pilot_time_to_unix_time,
}

-- fread of `n` bytes, all of which are wanted.
unfoldable pub fread : ℕ → Run File (List ℕ)
fread n file =
    let rest = drop file.at file.bytes in
    if leb n (length rest) then some (take n rest, record file { at = file.at + n }) else none

unfoldable pub fseek : ℕ → Run File (Unit {0})
fseek at = change (λ file. record file { at = at })

-- What the header holds: the fields of the database, and the offsets of its blocks.
pub record Header : Type 0 where
  pub info : DbInfo
  pub app_info_offset : ℕ
  pub sort_info_offset : ℕ
  pub unique_id_seed : ℕ
  pub next_record_list_id : ℕ
  pub num_entries : ℕ

-- The structure is cleared, so that the name ends in a NUL; dlpDBMiscFlagRamBased is 0x40.
unfoldable pub parse_header : List ℕ → Option Header
parse_header p = get_short (drop 32 p) >>? λ flags. get_short (drop 34 p) >>? λ version.
    get_long (drop 36 p) >>? λ created. get_long (drop 40 p) >>? λ modified.
    get_long (drop 44 p) >>? λ backed_up. get_long (drop 48 p) >>? λ modnum.
    get_long (drop 52 p) >>? λ app_info_offset. get_long (drop 56 p) >>? λ sort_info_offset.
    get_long (drop 60 p) >>? λ kind. get_long (drop 64 p) >>? λ creator.
    get_long (drop 68 p) >>? λ seed. get_long (drop 72 p) >>? λ next.
    get_short (drop 76 p) >>? λ num_entries. some (record {
      info = record {
        name = take 32 p ++ (0 ∷ 0 ∷ []);
        flags = flags;
        misc_flags = 0x40;
        version = version;
        kind = kind;
        creator = creator;
        modnum = modnum;
        create_date = pilot_time_to_unix_time created;
        modify_date = pilot_time_to_unix_time modified;
        backup_date = pilot_time_to_unix_time backed_up;
      };
      app_info_offset = app_info_offset;
      sort_info_offset = sort_info_offset;
      unique_id_seed = seed;
      next_record_list_id = next;
      num_entries = num_entries;
    })

unfoldable pub parse_entry : (resource : Bool) → List ℕ → Option Entry
parse_entry true p = get_long p >>? λ kind. get_short (drop 4 p) >>? λ resource_id.
    get_long (drop 6 p) >>? λ offset. some (record {
      offset = int32 offset;
      size = pos 0;
      resource_id = resource_id;
      attrs = 0;
      kind = kind;
      uid = 0;
    })
parse_entry false p = get_long p >>? λ offset. get_byte (drop 4 p) >>? λ attrs.
    get_treble (drop 5 p) >>? λ uid. some (record {
      offset = int32 offset;
      size = pos 0;
      resource_id = 0;
      attrs = attrs;
      kind = 0;
      uid = uid;
    })

unfoldable pub read_entries : (resource : Bool) → ℕ → Run File (List Entry)
read_entries resource zero = pure []
read_entries resource (suc n) = do
  p ← fread (ent_hdr_size resource)
  entry ← checked (parse_entry resource p)
  more ← read_entries resource n
  pure (entry ∷ more)

-- A size and the offset of what it belongs to.
abbrev pub sized : (file_size : ℤ) → Entry → List Entry × ℤ → Option (List Entry × ℤ)
sized file_size entry (more, offset) =
    let size = int32 (low32 (offset -ℤ entry.offset)) in
    if is_neg size || ltb_ℤ file_size (entry.offset +ℤ size)
    then none
    else some (record entry { size = size } ∷ more, entry.offset)

-- The loop from the last entry to the first.
unfoldable pub size_up : (file_size : ℤ) → List Entry → Option (List Entry × ℤ)
size_up file_size [] = some ([], file_size)
size_up file_size (entry ∷ entries) = size_up file_size entries >>? sized file_size entry

-- The size of an information block, and where it begins, if there is one.
unfoldable pub placed : (info_offset : ℕ) → (offset : ℤ) → ℤ × ℤ
placed zero offset = (pos 0, offset)
placed (suc n) offset = (int32 (low32 (offset -ℤ pos (suc n))), pos (suc n))

module _ (m : Allocator) where
  -- Of calloc only its success matters.
  unfoldable pub load_entries : (resource : Bool) → ℕ → Run File (List Entry)
  load_entries resource zero = pure []
  load_entries resource (suc n) = do
    cleared ← checked (m.malloc (32 * suc n))
    read_entries resource (suc n)

  unfoldable pub load_info : (info_offset : ℕ) → (size : ℤ) → Run File Block
  load_info info_offset (pos zero) = pure null_block
  load_info info_offset (pos (suc n)) = do
    allocated ← checked (m.malloc (suc n))
    fseek info_offset
    bytes ← fread (suc n)
    pure (block bytes)
  load_info info_offset (negsuc n) = checked none

  unfoldable pub load_blocks :
      (file_size : ℤ) → Header → List Entry → (sort app : ℤ) → Run File PiFile
  load_blocks file_size h entries sort app =
      if is_neg app
        || ltb_ℤ file_size (pos h.sort_info_offset +ℤ sort)
        || is_neg sort
        || ltb_ℤ file_size (pos h.app_info_offset +ℤ app)
      then checked none
      else (do
        app_info ← load_info h.app_info_offset app
        sort_info ← load_info h.sort_info_offset sort
        pure (record {
          err = pos 0;
          for_writing = false;
          app_info = app_info;
          app_info_size = app;
          sort_info = sort_info;
          sort_info_size = sort;
          next_record_list_id = h.next_record_list_id;
          resource_flag = is_resource h.info.flags;
          num_entries_allocated = 0;
          rbuf_size = 0;
          file = record { bytes = []; at = 0 };
          tmpbuf = none;
          unique_id_seed = h.unique_id_seed;
          info = h.info;
          entries = entries;
        }))

  unfoldable pub load_file : (file_size : ℤ) → Header → Run File PiFile
  load_file file_size h = if not (h.next_record_list_id == 0) then checked none else (do
    entries ← load_entries (is_resource h.info.flags) h.num_entries
    sized ← checked (size_up file_size entries)
    (let sort = placed h.sort_info_offset sized.1 in
        load_blocks file_size h sized.0 sort.0 (placed h.app_info_offset sort.1).0))

  -- ftell's result is kept as an `int`.
  unfoldable pub open_file : List ℕ → Run File PiFile
  open_file bytes = do
    p ← fread 78
    h ← checked (parse_header p)
    load_file (int32 (length bytes)) h

  abbrev pub with_file : Option (PiFile × File) → Option PiFile
  with_file none = none
  with_file (some (pf, file)) = some (record pf { file = file })

  -- The file's bytes, or none where fopen fails.
  unfoldable pub pi_file_open : Option (List ℕ) → Option PiFile
  pi_file_open none = none
  pi_file_open (some bytes) =
      m.malloc 216 >>? λ cleared. with_file (open_file bytes (record { bytes = bytes; at = 0 }))
