-- ===== src/AppInfo/RoundTrip.antt =====
-- What pack_CategoryAppInfo writes, unpack_CategoryAppInfo reads.
use mathlib.Core.List.{append_assoc}
use pilot_link.Base.{
  ℕ, ◌*◌, ◌%◌, ◌≤◌, ◌<◌, List, [], ◌∷◌, ◌++◌, some, ◌≡◌, refl, sym, ap, ◌∙◌, arith, leb-true,
  ltb-false, length, take, drop, All, length-append, take-append_left, drop-append_left,
}
use pilot_link.Macros.{get_byte, get_short, set_byte, set_short}
use pilot_link.AppInfo.{
  CategoryAppInfo, read_block, unpack_names, unpack_category_app_info, pack_renamed, pack_names,
  packed, pack_category_app_info,
}
use pilot_link.AppInfo.Bits.{IsFlag, renamed-lt, renamed-round}

-- The sizes of the structure's arrays and fields, and Boolean flags.
pub record IsValid (ai : CategoryAppInfo) : Type 0 where
  pub flags : All IsFlag ai.renamed
  pub flag_count : length ai.renamed ≡ 16
  pub name_sizes : All (λ one. length one ≡ 16) ai.name
  pub name_count : length ai.name ≡ 16
  pub id_size : length ai.id ≡ 16
  pub last_byte : ai.last_unique_id < 256

pub drop-exact : (n : ℕ) (xs ys : List ℕ) → length xs ≡ n → drop n (xs ++ ys) ≡ ys
drop-exact n xs ys h = ap (λ k. drop k (xs ++ ys)) (sym h) ∙ drop-append_left xs ys

pub read_block-exact : (n : ℕ) (xs ys : List ℕ) → length xs ≡ n → read_block n (xs ++ ys) ≡ some xs
unfolding read_block
read_block-exact n xs ys h =
    rw (leb-true n (length (xs ++ ys)) (omega (arith, length-append xs ys)))
      (ap (λ k. some (take k (xs ++ ys))) (sym h) ∙ ap some (take-append_left xs ys))

unpack_names-pack_names :
    (names : List (List ℕ)) (rest : List ℕ)
    → All (λ one. length one ≡ 16) names
    → unpack_names (length names) (pack_names names ++ rest) ≡ some names
unfolding unpack_names pack_names
unpack_names-pack_names [] rest h = refl
unpack_names-pack_names (one ∷ names) rest h =
    rw
      (
        append_assoc one (pack_names names) rest,
        read_block-exact 16 one (pack_names names ++ rest) (h.0),
        drop-exact 16 one (pack_names names ++ rest) (h.0),
        unpack_names-pack_names names rest (h.1),
      )
      refl

length-pack_names :
    (names : List (List ℕ))
    → All (λ one. length one ≡ 16) names
    → length (pack_names names) ≡ 16 * length names
unfolding pack_names
length-pack_names [] h = omega arith
length-pack_names (one ∷ names) h =
    omega (arith, length-append one (pack_names names), length-pack_names names (h.1), h.0)

-- The block with what follows it, from its names on.
abbrev pub after_flags : CategoryAppInfo → List ℕ → List ℕ
after_flags ai rest = pack_names ai.name ++ (ai.id ++ (ai.last_unique_id % 256 ∷ 0 ∷ 0 ∷ 0 ∷ rest))

abbrev pub laid_out : CategoryAppInfo → List ℕ → List ℕ
laid_out ai rest = set_short (pack_renamed 0 ai.renamed) ++ after_flags ai rest

pub packed-laid_out : (ai : CategoryAppInfo) (rest : List ℕ) → packed ai ++ rest ≡ laid_out ai rest
unfolding packed set_short set_byte
packed-laid_out ai rest =
    let last = ai.last_unique_id % 256 ∷ 0 ∷ 0 ∷ 0 ∷ [] in
    ap (λ bytes. set_short (pack_renamed 0 ai.renamed) ++ bytes)
      (append_assoc (pack_names ai.name) (ai.id ++ last) rest
        ∙ ap (λ bytes. pack_names ai.name ++ bytes) (append_assoc ai.id last rest))

pub names_size : (ai : CategoryAppInfo) → IsValid ai → length (pack_names ai.name) ≡ 256
names_size ai v = omega (arith, length-pack_names ai.name v.name_sizes, v.name_count)

flags_read :
    (ai : CategoryAppInfo) (rest : List ℕ)
    → IsValid ai
    → get_short (laid_out ai rest) ≡ some (pack_renamed 0 ai.renamed)
unfolding get_short set_short
flags_read ai rest v = ap some (omega (arith, renamed-lt ai.renamed v.flags v.flag_count))

names_read :
    (ai : CategoryAppInfo) (rest : List ℕ)
    → IsValid ai
    → unpack_names 16 (drop 2 (laid_out ai rest)) ≡ some ai.name
unfolding set_short
names_read ai rest v =
    ap (λ count. unpack_names count (after_flags ai rest)) (sym v.name_count)
    ∙ unpack_names-pack_names ai.name (ai.id ++ (ai.last_unique_id % 256 ∷ 0 ∷ 0 ∷ 0 ∷ rest))
        v.name_sizes

id_read :
    (ai : CategoryAppInfo) (rest : List ℕ)
    → IsValid ai
    → read_block 16 (drop 258 (laid_out ai rest)) ≡ some ai.id
unfolding set_short
id_read ai rest v =
    let last = ai.last_unique_id % 256 ∷ 0 ∷ 0 ∷ 0 ∷ rest in
    ap (read_block 16) (drop-exact 256 (pack_names ai.name) (ai.id ++ last) (names_size ai v))
    ∙ read_block-exact 16 ai.id last v.id_size

last_read :
    (ai : CategoryAppInfo) (rest : List ℕ)
    → IsValid ai
    → get_byte (drop 274 (laid_out ai rest)) ≡ some ai.last_unique_id
unfolding set_short get_byte
last_read ai rest v =
    let last = ai.last_unique_id % 256 ∷ 0 ∷ 0 ∷ 0 ∷ rest in
    ap (λ bytes. get_byte (drop 272 bytes)) (sym (append_assoc (pack_names ai.name) ai.id last))
    ∙ ap get_byte (
        drop-exact 272 (pack_names ai.name ++ ai.id) last
          (omega (arith, length-append (pack_names ai.name) ai.id, names_size ai v, v.id_size)))
    ∙ ap some (omega (arith, v.last_byte))

pub unpack-laid_out :
    (ai : CategoryAppInfo) (rest : List ℕ) (len : ℕ)
    → IsValid ai
    → 278 ≤ len
    → unpack_category_app_info (laid_out ai rest) len ≡ some (278, some ai)
unfolding unpack_category_app_info
unpack-laid_out ai rest len v h =
    rw
      (
        ltb-false len 278 h,
        flags_read ai rest v,
        names_read ai rest v,
        id_read ai rest v,
        last_read ai rest v,
        renamed-round ai.renamed v.flags v.flag_count,
      )
      refl

-- A valid category block that is packed into at least 278 bytes of memory is read back from there,
-- and both say that they used 278 bytes.
pub unpack_category_app_info-pack_category_app_info :
    (ai : CategoryAppInfo) (memory : List ℕ) (len len' : ℕ)
    → IsValid ai
    → 278 ≤ length memory
    → 278 ≤ len
    → 278 ≤ len'
    → (written : List ℕ) × (pack_category_app_info ai (some memory) len ≡ some (278, some written))
      × (unpack_category_app_info written len' ≡ some (278, some ai))
unfolding pack_category_app_info
unpack_category_app_info-pack_category_app_info ai memory len len' v h k l = (
  packed ai ++ drop 278 memory,
  rw (ltb-false len 278 k, leb-true 278 (length memory) h) refl,
  ap (λ bytes. unpack_category_app_info bytes len') (packed-laid_out ai (drop 278 memory))
      ∙ unpack-laid_out ai (drop 278 memory) len' v l,
)
