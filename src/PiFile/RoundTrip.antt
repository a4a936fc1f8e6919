-- ===== src/PiFile/RoundTrip.antt =====
-- libpisock/pi-file.c: what pi_file_close writes, pi_file_open reads.
use pilot_link.Base.{
  ℕ, ◌+◌, ◌*◌, ◌^◌, ◌<◌, true, false, List, [], ◌∷◌, ◌++◌, some, ◌≡◌, refl, sym, ap, ◌∙◌, arith,
  length, drop, leb, length-append,
}
use mathlib.Core.List.{append-nil}
use pilot_link.Base.Int.{pos, int32, low32}
use pilot_link.Base.Run.{◌>>=◌, checked}
use pilot_link.AppInfo.RoundTrip.{drop-exact}
use pilot_link.Buffer.{Allocator}
use pilot_link.Buffer.Blocks.{Ample}
use pilot_link.PiFile.{File, PiFile, ent_hdr_size, is_resource}
use pilot_link.PiFile.Headers.{HeaderFits, kept_info, parsed_header, parse_header-file_header}
use pilot_link.PiFile.Indexes.{
  joined, all_bytes, laid_out, int32-small, low32-small, fread-exact, drop-piece, length-index,
  Takes, put_all-Takes,
}
use pilot_link.PiFile.Loaded.{opened, no_file, load_file-head}
use pilot_link.PiFile.Open.{Header, load_file, open_file, pi_file_open, parse_header}
use pilot_link.PiFile.Write.{
  index_pieces, file_header, first_offset, pieces, Piece, Disk, pi_file_close_for_write,
  pi_file_free, pi_file_close,
}
use pilot_link.PiFile.Held.{
  Writable, start_of, block_bytes-held, freed-as_block, buffered-valid, positive, offset_or-le,
  parsed_header-head, all_bytes-append,
}

module _ (pf : PiFile) (data_ : List (List ℕ)) (app sort : List ℕ) where
  abbrev index_of : List ℕ
  index_of = all_bytes (index_pieces pf.resource_flag (start_of pf app sort) pf.entries)

  -- The bytes behind the header and the index.
  abbrev tail_of : List ℕ
  tail_of = app ++ (sort ++ joined data_)

  abbrev all_of : (header : List ℕ) → List Piece
  all_of header =
      (true, header)
      ∷ (index_pieces pf.resource_flag (start_of pf app sort) pf.entries
          ++ ((false, 0 ∷ 0 ∷ []) ∷ (true, app) ∷ (true, sort) ∷ (false, joined data_) ∷ []))

  low32-app : Writable pf data_ app sort → low32 pf.app_info_size ≡ length app
  low32-app v = ap low32 v.app_size ∙ low32-small (length app) (let t = v.total in omega arith)

  low32-sort : Writable pf data_ app sort → low32 pf.sort_info_size ≡ length sort
  low32-sort v = ap low32 v.sort_size ∙ low32-small (length sort) (let t = v.total in omega arith)

  header_fits : Writable pf data_ app sort → HeaderFits pf (first_offset pf)
  header_fits v =
      let t = v.total in
      let l = low32-app v in
      record {
        info_fits = v.info_fits;
        app_bits = omega (arith, offset_or-le pf.app_info_size (first_offset pf));
        sort_bits =
            omega
              (arith, offset_or-le pf.sort_info_size (first_offset pf + low32 pf.app_info_size));
        seed_bits = v.seed_bits;
        next_bits = (let n = v.no_more_lists in omega arith);
        count_bits = v.count_bits;
      }

  pieces-Writable :
      (header : List ℕ)
      → Writable pf data_ app sort
      → file_header pf (first_offset pf) ≡ some header
      → pieces pf ≡ some (all_of header)
  unfolding pieces
  pieces-Writable header v e =
      rw
        (
          e,
          block_bytes-held pf.app_info pf.app_info_size app v.app_held v.app_size,
          block_bytes-held pf.sort_info pf.sort_info_size sort v.sort_held v.sort_size,
          buffered-valid pf.tmpbuf v.tmpbuf (joined data_) v.has_tmpbuf v.tmpbuf_valid v.data_held,
          low32-app v,
          low32-sort v,
        )
        refl

  all_bytes-all_of :
      (header : List ℕ) → all_bytes (all_of header) ≡ header ++ (index_of ++ (0 ∷ 0 ∷ tail_of))
  all_bytes-all_of header =
      let index = index_pieces pf.resource_flag (start_of pf app sort) pf.entries in
      let rest = (false, 0 ∷ 0 ∷ []) ∷ (true, app) ∷ (true, sort) ∷ (false, joined data_) ∷ [] in
      ap (λ r. header ++ r) (all_bytes-append index rest)
      ∙ ap (λ r. header ++ (index_of ++ (0 ∷ 0 ∷ (app ++ (sort ++ r))))) (append-nil (joined data_))

  size_of_index : length index_of ≡ length pf.entries * ent_hdr_size pf.resource_flag
  size_of_index = length-index pf.resource_flag (start_of pf app sort) pf.entries

  at_tail :
      (header : List ℕ)
      → length header ≡ 78
      → drop (first_offset pf) (header ++ (index_of ++ (0 ∷ 0 ∷ tail_of))) ≡ tail_of
  unfolding first_offset
  at_tail header l =
      let bytes = header ++ (index_of ++ (0 ∷ 0 ∷ tail_of)) in
      let n = length pf.entries * ent_hdr_size pf.resource_flag in
      drop-piece 2 bytes (0 ∷ 0 ∷ []) tail_of (78 + n) refl (
        drop-piece n bytes index_of (0 ∷ 0 ∷ tail_of) 78 size_of_index
          (drop-exact 78 header (index_of ++ (0 ∷ 0 ∷ tail_of)) l))

  length-file :
      (header : List ℕ)
      → length header ≡ 78
      → start_of pf app sort + length (joined data_)
        ≡ length (header ++ (index_of ++ (0 ∷ 0 ∷ tail_of)))
  unfolding first_offset
  length-file header l = omega (
    arith,
    length-append header (index_of ++ (0 ∷ 0 ∷ tail_of)),
    length-append index_of (0 ∷ 0 ∷ tail_of),
    size_of_index,
    length-append app (sort ++ joined data_),
    length-append sort (joined data_),
  )

  -- The structure that the file is opened as.
  abbrev pub reopened : File → PiFile
  reopened file =
      opened (kept_info pf.info) pf.unique_id_seed
        (laid_out (is_resource pf.info.flags) (start_of pf app sort) pf.entries data_) app sort file

  loaded :
      (m : Allocator) (header : List ℕ)
      → Ample m
      → Writable pf data_ app sort
      → length header ≡ 78
      → (at : ℕ) × (load_file m
            (int32 (length (header ++ (index_of ++ (0 ∷ 0 ∷ tail_of)))))
            (parsed_header pf (first_offset pf))
            (record { bytes = header ++ (index_of ++ (0 ∷ 0 ∷ tail_of)); at = 78 })
          ≡ some (
            reopened no_file,
            record { bytes = header ++ (index_of ++ (0 ∷ 0 ∷ tail_of)); at = at },
          ))
  loaded m header k v l =
      let bytes = header ++ (index_of ++ (0 ∷ 0 ∷ tail_of)) in
      let start = start_of pf app sort in
      let total = v.total in
      let small : length bytes < 2 ^ 31 = omega (arith, length-file header l) in
      let d1 =
        drop-exact 78 header (index_of ++ (0 ∷ 0 ∷ tail_of)) l
        ∙ ap (λ r. all_bytes (index_pieces r start pf.entries) ++ (0 ∷ 0 ∷ tail_of)) v.of_kind in
      let (at, e) =
        load_file-head m (kept_info pf.info) pf.unique_id_seed (first_offset pf) app sort bytes
          pf.entries data_ (0 ∷ 0 ∷ tail_of) (length bytes) k v.entries_fit v.sizes start refl
          (length-file header l) small (positive pf) d1 (at_tail header l) in
      (
        at,
        rw
            (
              int32-small (length bytes) small,
              parsed_header-head pf (first_offset pf) app sort v.app_size v.sort_size (low32-app v)
                  v.no_more_lists,
            )
            e,
      )

  -- pi_file_close
  closed :
      (disk : Disk) (header : List ℕ)
      → Takes disk
      → Writable pf data_ app sort
      → file_header pf (first_offset pf) ≡ some header
      → pi_file_close disk pf ≡ some (pos 0, header ++ (index_of ++ (0 ∷ 0 ∷ tail_of)))
  unfolding pi_file_close pi_file_free pi_file_close_for_write
  closed disk header t v e =
      let (gone, e1) = freed-as_block pf.app_info app v.app_held in
      let (gone', e2) = freed-as_block pf.sort_info sort v.sort_held in
      let few : leb (64 * 1024) (length pf.entries) ≡ false =
        (let c = v.count_bits in ground arith) in
      rw
        (
          pieces-Writable header v e,
          put_all-Takes disk [] (all_of header) t,
          all_bytes-all_of header,
          few,
          e1,
          e2,
          t.opened,
          v.writing,
        )
        refl

-- The fields of an opened file but for the position.
opened_file :
    (m : Allocator) (bytes header : List ℕ) (h : Header) (at : ℕ) (pf : PiFile)
    → Ample m
    → drop 0 bytes ≡ header ++ drop 78 bytes
    → length header ≡ 78
    → parse_header header ≡ some h
    → load_file m (int32 (length bytes)) h (record { bytes = bytes; at = 78 })
      ≡ some (pf, record { bytes = bytes; at = at })
    → pi_file_open m (some bytes) ≡ some (record pf { file = record { bytes = bytes; at = at } })
unfolding pi_file_open open_file ◌>>=◌ checked
opened_file m bytes header h at pf k d l e1 e2 =
    let (cleared, e) = k 216 in
    rw (e, fread-exact 78 bytes header (drop 78 bytes) 0 l d, e1, e2) refl

-- pi_file_close of a structure for writing that holds the data of its records (less than 65536
-- of them) and the bytes of its two blocks, in a file of less than 2 ^ 31 bytes, with fields that
-- fit the format, on a disk that takes what is written, writes a file without undefined
-- behaviour and returns 0; and pi_file_open on that file, with an allocator that refuses nothing,
-- returns a structure with the same information (but for the name's first 32 bytes, which a NUL ends,
-- and the flags, which say that the database is in RAM), the same blocks, and the same entries
-- in their order, each at the offset where the data before it end.
pub pi_file_open-pi_file_close :
    (m : Allocator) (disk : Disk) (pf : PiFile) (data_ : List (List ℕ)) (app sort : List ℕ)
    → Ample m
    → Takes disk
    → Writable pf data_ app sort
    → (bytes : List ℕ) × (at : ℕ) × (pi_file_close disk pf ≡ some (pos 0, bytes))
      × (drop (start_of pf app sort) bytes ≡ joined data_)
      × (pi_file_open m (some bytes)
          ≡ some (reopened pf data_ app sort (record { bytes = bytes; at = at })))
pi_file_open-pi_file_close m disk pf data_ app sort k t v =
    let (header, e1, l, e2) =
      parse_header-file_header pf (first_offset pf) (header_fits pf data_ app sort v) in
    let rest = index_of pf data_ app sort ++ (0 ∷ 0 ∷ tail_of pf data_ app sort) in
    let (at, e3) = loaded pf data_ app sort m header k v l in
    let d1 =
      drop-piece (length app) (header ++ rest) app (sort ++ joined data_) (first_offset pf) refl
        (at_tail pf data_ app sort header l) in
    (
      header ++ rest,
      at,
      closed pf data_ app sort disk header t v e1,
      drop-piece (length sort) (header ++ rest) sort (joined data_) (first_offset pf + length app)
          refl d1,
      opened_file m (header ++ rest) header (parsed_header pf (first_offset pf)) at
          (reopened pf data_ app sort no_file) k
          (ap (λ r. header ++ r) (sym (drop-exact 78 header rest l))) l e2 e3,
    )
