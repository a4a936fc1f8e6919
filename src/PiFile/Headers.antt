-- ===== src/PiFile/Headers.antt =====
-- libpisock/pi-file.c: what pi_file_close_for_write writes as a header, pi_file_open parses.
use pilot_link.Base.{
  ℕ, zero, suc, ◌+◌, ◌^◌, ◌<◌, List, [], ◌∷◌, ◌++◌, some, ◌≡◌, refl, sym, ap, ◌∙◌, arith, length,
  take, drop, leb-true, length-append, take-append_left,
}
use pilot_link.Base.Int.{low32}
use pilot_link.AppInfo.{read_block}
use pilot_link.AppInfo.RoundTrip.{drop-exact}
use pilot_link.Buffer.Blocks.{length-take}
use pilot_link.Macros.{get_short, get_long, set_short, set_long}
use pilot_link.PiFile.{DbInfo, PiFile, pilot_time_to_unix_time, unix_time_to_pilot_time}
use pilot_link.PiFile.Open.{Header, parse_header}
use pilot_link.PiFile.Write.{file_header, offset_or}

-- What a header has room for.
pub record InHeader (info : DbInfo) : Type 0 where
  pub name_size : length info.name ≡ 34
  pub flags_bits : info.flags < 2 ^ 16
  pub version_bits : info.version < 2 ^ 16
  pub kind_bits : info.kind < 2 ^ 32
  pub creator_bits : info.creator < 2 ^ 32
  pub modnum_bits : info.modnum < 2 ^ 32
  pub created_bits : unix_time_to_pilot_time info.create_date < 2 ^ 32
  pub modified_bits : unix_time_to_pilot_time info.modify_date < 2 ^ 32
  pub backed_up_bits : unix_time_to_pilot_time info.backup_date < 2 ^ 32
  pub created_time : info.create_date < 2 ^ 64
  pub modified_time : info.modify_date < 2 ^ 64
  pub backed_up_time : info.backup_date < 2 ^ 64

time-time : (t : ℕ) → t < 2 ^ 64 → pilot_time_to_unix_time (unix_time_to_pilot_time t) ≡ t
unfolding pilot_time_to_unix_time unix_time_to_pilot_time
time-time t h = omega arith

pub get_long-set_long :
    (n : ℕ) (rest : List ℕ) → n < 2 ^ 32 → get_long (set_long n ++ rest) ≡ some n
unfolding get_long set_long
get_long-set_long n rest h = ap some (omega arith)

pub get_short-set_short :
    (n : ℕ) (rest : List ℕ) → n < 2 ^ 16 → get_short (set_short n ++ rest) ≡ some n
unfolding get_short set_short
get_short-set_short n rest h = ap some (omega arith)

pub drop-nil : (n : ℕ) → drop {A = ℕ} n [] ≡ []
drop-nil zero = refl
drop-nil (suc n) = refl

pub drop-drop : (a b : ℕ) (xs : List ℕ) → drop a (drop b xs) ≡ drop (b + a) xs
drop-drop a zero xs = ap (λ n. drop n xs) (omega arith)
drop-drop a (suc b) [] = drop-nil a ∙ sym (drop-nil (suc b + a))
drop-drop a (suc b) (x ∷ xs) =
    let e : suc (b + a) ≡ suc b + a = omega arith in drop-drop a b xs ∙ ap (λ n. drop n (x ∷ xs)) e

drop-past : (n k : ℕ) (xs ys : List ℕ) → length xs ≡ n → drop (n + k) (xs ++ ys) ≡ drop k ys
drop-past n k xs ys h = sym (drop-drop k n (xs ++ ys)) ∙ ap (drop k) (drop-exact n xs ys h)

long_past :
    (k v : ℕ) (name tail rest : List ℕ)
    → length name ≡ 32
    → drop k tail ≡ set_long v ++ rest
    → v < 2 ^ 32
    → get_long (drop (32 + k) (name ++ tail)) ≡ some v
long_past k v name tail rest l e h =
    ap get_long (drop-past 32 k name tail l ∙ e) ∙ get_long-set_long v rest h

short_past :
    (k v : ℕ) (name tail rest : List ℕ)
    → length name ≡ 32
    → drop k tail ≡ set_short v ++ rest
    → v < 2 ^ 16
    → get_short (drop (32 + k) (name ++ tail)) ≡ some v
short_past k v name tail rest l e h =
    ap get_short (drop-past 32 k name tail l ∙ e) ∙ get_short-set_short v rest h

-- The fields that a file keeps: 32 bytes of the name, and no flags but the database's.
abbrev pub kept_info : DbInfo → DbInfo
kept_info info = record info { name = take 32 info.name ++ (0 ∷ 0 ∷ []); misc_flags = 0x40 }

abbrev pub parsed_header : PiFile → (offset : ℕ) → Header
parsed_header pf offset = record {
  info = kept_info pf.info;
  app_info_offset = offset_or pf.app_info_size offset;
  sort_info_offset = offset_or pf.sort_info_size (offset + low32 pf.app_info_size);
  unique_id_seed = pf.unique_id_seed;
  next_record_list_id = pf.next_record_list_id;
  num_entries = length pf.entries;
}

-- What stands behind the name.
abbrev header_tail : PiFile → (offset : ℕ) → List ℕ
header_tail pf offset =
    let info = pf.info in
    set_short info.flags
    ++ (set_short info.version
        ++ (set_long (unix_time_to_pilot_time info.create_date)
            ++ (set_long (unix_time_to_pilot_time info.modify_date)
                ++ (set_long (unix_time_to_pilot_time info.backup_date)
                    ++ (set_long info.modnum
                        ++ (set_long (offset_or pf.app_info_size offset)
                            ++ (set_long
                                  (offset_or pf.sort_info_size (offset + low32 pf.app_info_size))
                                ++ (set_long info.kind
                                    ++ (set_long info.creator
                                        ++ (set_long pf.unique_id_seed
                                            ++ (set_long pf.next_record_list_id
                                                ++ set_short (length pf.entries))))))))))))

pub record HeaderFits (pf : PiFile) (offset : ℕ) : Type 0 where
  pub info_fits : InHeader pf.info
  pub app_bits : offset_or pf.app_info_size offset < 2 ^ 32
  pub sort_bits : offset_or pf.sort_info_size (offset + low32 pf.app_info_size) < 2 ^ 32
  pub seed_bits : pf.unique_id_seed < 2 ^ 32
  pub next_bits : pf.next_record_list_id < 2 ^ 32
  pub count_bits : length pf.entries < 2 ^ 16

parse_header-tail :
    (pf : PiFile) (offset : ℕ) (name : List ℕ)
    → HeaderFits pf offset
    → length name ≡ 32
    → name ≡ take 32 pf.info.name
    → parse_header (name ++ header_tail pf offset) ≡ some (parsed_header pf offset)
unfolding parse_header set_short set_long
parse_header-tail pf offset name v l e =
    let t = header_tail pf offset in
    let i = v.info_fits in
    rw
      (
        ap (λ n. take n (name ++ t)) (sym l) ∙ take-append_left name t ∙ e,
        short_past 0 pf.info.flags name t (drop 2 t) l refl i.flags_bits,
        short_past 2 pf.info.version name t (drop 4 t) l refl i.version_bits,
        long_past 4 (unix_time_to_pilot_time pf.info.create_date) name t (drop 8 t) l refl
            i.created_bits,
        long_past 8 (unix_time_to_pilot_time pf.info.modify_date) name t (drop 12 t) l refl
            i.modified_bits,
        long_past 12 (unix_time_to_pilot_time pf.info.backup_date) name t (drop 16 t) l refl
            i.backed_up_bits,
        long_past 16 pf.info.modnum name t (drop 20 t) l refl i.modnum_bits,
        long_past 20 (offset_or pf.app_info_size offset) name t (drop 24 t) l refl v.app_bits,
        long_past 24 (offset_or pf.sort_info_size (offset + low32 pf.app_info_size)) name t
            (drop 28 t) l refl v.sort_bits,
        long_past 28 pf.info.kind name t (drop 32 t) l refl i.kind_bits,
        long_past 32 pf.info.creator name t (drop 36 t) l refl i.creator_bits,
        long_past 36 pf.unique_id_seed name t (drop 40 t) l refl v.seed_bits,
        long_past 40 pf.next_record_list_id name t (drop 44 t) l refl v.next_bits,
        short_past 44 (length pf.entries) name t [] l refl v.count_bits,
        time-time pf.info.create_date i.created_time,
        time-time pf.info.modify_date i.modified_time,
        time-time pf.info.backup_date i.backed_up_time,
      )
      refl

length-header_tail : (pf : PiFile) (offset : ℕ) → length (header_tail pf offset) ≡ 46
unfolding set_short set_long
length-header_tail pf offset = refl

pub parse_header-file_header :
    (pf : PiFile) (offset : ℕ)
    → HeaderFits pf offset
    → (p : List ℕ) × (file_header pf offset ≡ some p)
      × (length p ≡ 78)
      × (parse_header p ≡ some (parsed_header pf offset))
unfolding file_header read_block
parse_header-file_header pf offset v =
    let name = take 32 pf.info.name in
    let size : length pf.info.name ≡ 34 = v.info_fits.name_size in
    let l : length name ≡ 32 = length-take 32 pf.info.name (omega arith) in
    (
      name ++ header_tail pf offset,
      rw (leb-true 32 (length pf.info.name) (omega arith)) refl,
      omega (arith, length-append name (header_tail pf offset), length-header_tail pf offset),
      parse_header-tail pf offset name v l refl,
    )
