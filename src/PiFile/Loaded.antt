-- ===== src/PiFile/Loaded.antt =====
-- libpisock/pi-file.c: pi_file_open on a file that is laid out as pi_file_close_for_write does it.
use pilot_link.Base.{
  ℕ, zero, suc, ◌+◌, ◌*◌, ◌^◌, ◌≤◌, ◌<◌, Bool, false, List, [], ◌∷◌, ◌++◌, none, some, ◌≡◌, refl,
  ap, ◌∙◌, arith, length, drop, All,
}
use pilot_link.Base.Int.{pos, ◌+ℤ◌, ltb_ℤ}
use pilot_link.Base.Run.{◌>>=◌, pure, change, checked}
use pilot_link.Buffer.{Allocator}
use pilot_link.Buffer.Blocks.{Ample}
use pilot_link.PiFile.{
  DbInfo, Entry, Block, null_block, block, File, PiFile, ent_hdr_size, is_resource,
}
use pilot_link.PiFile.Indexes.{
  InIndex, Sized, joined, all_bytes, laid_out, distance, in_file, fread-exact, drop-piece,
  read_entries-laid_out, size_up-laid_out,
}
use pilot_link.PiFile.Open.{
  Header, read_entries, load_entries, load_info, load_blocks, load_file, placed, fseek,
}
use pilot_link.PiFile.Write.{offset_or, index_pieces}

-- An information block of a structure: NULL where there are no bytes.
abbrev pub as_block : List ℕ → Block
as_block [] = null_block
as_block (b ∷ bytes) = block (b ∷ bytes)

placed-offset_or :
    (size offset : ℕ)
    → 0 < offset
    → offset + size < 2 ^ 31
    → placed (offset_or (pos size) offset) (pos (offset + size)) ≡ (pos size, pos offset)
unfolding placed
placed-offset_or zero offset h k = ap (λ n. (pos 0, pos n)) (omega arith)
placed-offset_or (suc size) zero h k = absurd (omega arith)
placed-offset_or (suc size) (suc n) h k = rw (distance (suc n) (suc size) k) refl

in_limit :
    (limit size offset : ℕ)
    → offset + size ≤ limit
    → ltb_ℤ (pos limit) (pos (offset_or (pos size) offset) +ℤ pos size) ≡ false
in_limit limit zero offset h = in_file limit 0 0 (omega arith)
in_limit limit (suc size) offset h = in_file limit offset (suc size) h

load_entries-Ample :
    (m : Allocator) (resource : Bool) (n : ℕ) (file : File)
    → Ample m
    → load_entries m resource n file ≡ read_entries resource n file
unfolding load_entries read_entries ◌>>=◌ checked
load_entries-Ample m resource zero file k = refl
load_entries-Ample m resource (suc n) file k = let (cleared, e) = k (32 * suc n) in rw e refl

load_info-as_block :
    (m : Allocator) (one bytes rest : List ℕ) (offset at : ℕ)
    → Ample m
    → drop offset bytes ≡ one ++ rest
    → (at' : ℕ) × (load_info m
          (offset_or (pos (length one)) offset)
          (pos (length one))
          (record { bytes = bytes; at = at })
        ≡ some (as_block one, record { bytes = bytes; at = at' }))
unfolding load_info ◌>>=◌ checked pure change fseek
load_info-as_block m [] bytes rest offset at k e = (at, refl)
load_info-as_block m (b ∷ one) bytes rest offset at k e =
    let (cleared, e') = k (suc (length one)) in
    (
      offset + length (b ∷ one),
      rw (e', fread-exact (length (b ∷ one)) bytes (b ∷ one) rest offset refl e) refl,
    )

-- A file that has been read, with blocks of these bytes.
abbrev pub opened : DbInfo → (seed : ℕ) → List Entry → (app sort : List ℕ) → File → PiFile
opened info seed entries app sort file = record {
  err = pos 0;
  for_writing = false;
  app_info = as_block app;
  app_info_size = pos (length app);
  sort_info = as_block sort;
  sort_info_size = pos (length sort);
  next_record_list_id = 0;
  resource_flag = is_resource info.flags;
  num_entries_allocated = 0;
  rbuf_size = 0;
  file = file;
  tmpbuf = none;
  unique_id_seed = seed;
  info = info;
  entries = entries;
}

abbrev pub no_file : File
no_file = record { bytes = []; at = 0 }

abbrev pub head : DbInfo → (seed count first : ℕ) → (app sort : List ℕ) → Header
head info seed count first app sort = record {
  info = info;
  app_info_offset = offset_or (pos (length app)) first;
  sort_info_offset = offset_or (pos (length sort)) (first + length app);
  unique_id_seed = seed;
  next_record_list_id = 0;
  num_entries = count;
}

module _ (m : Allocator) (info : DbInfo) (seed first : ℕ) (app sort bytes : List ℕ) where
  load_blocks-head :
      (count : ℕ) (entries : List Entry) (rest : List ℕ) (at limit : ℕ)
      → Ample m
      → drop first bytes ≡ app ++ (sort ++ rest)
      → first + length app + length sort ≤ limit
      → (at' : ℕ) × (load_blocks m
            (pos limit)
            (head info seed count first app sort)
            entries
            (pos (length sort))
            (pos (length app))
            (record { bytes = bytes; at = at })
          ≡ some (opened info seed entries app sort no_file, record { bytes = bytes; at = at' }))
  unfolding load_blocks ◌>>=◌ checked pure
  load_blocks-head count entries rest at limit k e h =
      let (at', e1) = load_info-as_block m app bytes (sort ++ rest) first at k e in
      let e' = drop-piece (length app) bytes app (sort ++ rest) first refl e in
      let (at'', e2) = load_info-as_block m sort bytes rest (first + length app) at' k e' in
      (
        at'',
        rw
            (
              in_limit limit (length sort) (first + length app) h,
              in_limit limit (length app) first (omega arith),
              e1,
              e2,
            )
            refl,
      )

  pub load_file-head :
      (entries : List Entry) (data_ : List (List ℕ)) (rest : List ℕ) (limit : ℕ)
      → Ample m
      → All InIndex entries
      → Sized entries data_
      → (start : ℕ) → start ≡ first + length app + length sort
      → start + length (joined data_) ≡ limit
      → limit < 2 ^ 31
      → 0 < first
      → drop 78 bytes ≡ all_bytes (index_pieces (is_resource info.flags) start entries) ++ rest
      → drop first bytes ≡ app ++ (sort ++ joined data_)
      → (at : ℕ) × (load_file m
            (pos limit)
            (head info seed (length entries) first app sort)
            (record { bytes = bytes; at = 78 })
          ≡ some (
            opened info seed
                (laid_out (is_resource info.flags) start entries data_)
                app
                sort
                no_file,
            record { bytes = bytes; at = at },
          ))
  unfolding load_file ◌>>=◌ checked
  load_file-head entries data_ rest limit k v z start f e h p d1 d2 =
      let resource = is_resource info.flags in
      let at1 = 78 + length entries * ent_hdr_size resource in
      let e1 =
        load_entries-Ample m resource (length entries) (record { bytes = bytes; at = 78 }) k
        ∙ read_entries-laid_out resource start entries data_ bytes rest 78 v z (omega arith) d1 in
      let (at, e2) =
        load_blocks-head (length entries) (laid_out resource start entries data_) (joined data_) at1
          limit k d2 (omega arith) in
      let s1 =
        ap (λ n. placed (offset_or (pos (length sort)) (first + length app)) (pos n)) f
        ∙ placed-offset_or (length sort) (first + length app) (omega arith) (omega arith) in
      (
        at,
        rw
            (
              e1,
              size_up-laid_out resource start limit entries data_ z e h,
              s1,
              placed-offset_or (length app) first p (omega arith),
            )
            e2,
      )
