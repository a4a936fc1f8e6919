-- ===== src/PiFile/Appended.antt =====
-- libpisock/pi-file.c: what a structure for writing holds after records have been put in.
use pilot_link.Base.{
  ℕ, ◌+◌, ◌*◌, ◌/◌, ◌%◌, ◌^◌, ◌==◌, ◌≤◌, ◌<◌, Bool, true, false, not, ◌&&◌, ◌||◌, List, [], ◌∷◌,
  ◌++◌, some, ◌≡◌, refl, sym, ap, ◌∙◌, arith, length, leb, if◌then◌else◌, All, length-append,
  Bool-cases, inl, inr, ◌⊎◌,
}
use mathlib.Core.List.{append-nil, append_assoc}
use pilot_link.Base.Int.{pos}
use pilot_link.Buffer.{Buffer, Allocator}
use pilot_link.Buffer.Append.{pi_buffer_append-Ample}
use pilot_link.Buffer.Blocks.{Ample, IsValid, contents}
use pilot_link.PiFile.{Entry, PiFile, ent_hdr_size}
use pilot_link.PiFile.Build.{
  cleared_entry, on_last, pi_file_append_entry, append_data, append_bytes, pi_file_append_record,
}
use pilot_link.PiFile.Indexes.{InIndex, Sized, joined, int32-small}
use pilot_link.PiFile.Read.{pi_file_id_used}
use pilot_link.PiFile.Held.{Writable}
use pilot_link.PiFile.Write.{first_offset}

on_last-append :
    (f : Entry → Entry) (xs : List Entry) (x : Entry)
    → on_last f (xs ++ (x ∷ [])) ≡ xs ++ (f x ∷ [])
on_last-append f [] x = refl
on_last-append f (a ∷ []) x = refl
on_last-append f (a ∷ b ∷ xs) x = ap (◌∷◌ a) (on_last-append f (b ∷ xs) x)

All-append :
    (P : Entry → Type 0) (xs : List Entry) (x : Entry) → All P xs → P x → All P (xs ++ (x ∷ []))
All-append P [] x h p = (p, tt)
All-append P (a ∷ xs) x h p = (h.0, All-append P xs x (h.1) p)

Sized-append :
    (entries : List Entry) (data_ : List (List ℕ)) (entry : Entry) (one : List ℕ)
    → Sized entries data_
    → entry.size ≡ pos (length one)
    → Sized (entries ++ (entry ∷ [])) (data_ ++ (one ∷ []))
Sized-append [] [] entry one z h = (h, tt)
Sized-append [] (d ∷ data_) entry one z h = absurd z
Sized-append (e ∷ entries) [] entry one z h = absurd z
Sized-append (e ∷ entries) (d ∷ data_) entry one z h =
    (z.0, Sized-append entries data_ entry one (z.1) h)

joined-append :
    (data_ : List (List ℕ)) (one : List ℕ) → joined (data_ ++ (one ∷ [])) ≡ joined data_ ++ one
joined-append [] one = append-nil one
joined-append (d ∷ data_) one =
    ap (λ r. d ++ r) (joined-append data_ one) ∙ sym (append_assoc d (joined data_) one)

-- The structure with one more entry, whose data stand at the end of the buffer.
abbrev longer : PiFile → (allocated : ℕ) → Buffer → Entry → PiFile
longer pf allocated tmpbuf entry = record pf {
  num_entries_allocated = allocated;
  tmpbuf = some tmpbuf;
  entries = pf.entries ++ (entry ∷ []);
}

first_offset-longer :
    (pf : PiFile) (allocated : ℕ) (tmpbuf : Buffer) (entry : Entry)
    → first_offset (longer pf allocated tmpbuf entry)
      ≡ first_offset pf + ent_hdr_size pf.resource_flag
unfolding first_offset
first_offset-longer pf allocated tmpbuf entry =
    rw (length-append pf.entries (entry ∷ [])) (omega arith)

ent_hdr_size-le : (resource : Bool) → ent_hdr_size resource ≤ 10
unfolding ent_hdr_size
ent_hdr_size-le true = omega arith
ent_hdr_size-le false = omega arith

longer-Writable :
    (pf : PiFile) (data_ : List (List ℕ)) (app sort one : List ℕ) (allocated : ℕ) (tmpbuf : Buffer)
    (entry : Entry)
    → Writable pf data_ app sort
    → IsValid tmpbuf
    → contents tmpbuf ≡ joined data_ ++ one
    → InIndex entry
    → entry.size ≡ pos (length one)
    → length pf.entries + 1 < 2 ^ 16
    → first_offset pf + length app + length sort + length (joined data_) + 10 + length one < 2 ^ 31
    → Writable (longer pf allocated tmpbuf entry) (data_ ++ (one ∷ [])) app sort
longer-Writable pf data_ app sort one allocated tmpbuf entry v b c i s n t = record {
  writing = v.writing;
  of_kind = v.of_kind;
  no_more_lists = v.no_more_lists;
  info_fits = v.info_fits;
  seed_bits = v.seed_bits;
  count_bits = omega (arith, length-append pf.entries (entry ∷ []));
  entries_fit = All-append InIndex pf.entries entry v.entries_fit i;
  sizes = Sized-append pf.entries data_ entry one v.sizes s;
  tmpbuf = tmpbuf;
  has_tmpbuf = refl;
  tmpbuf_valid = b;
  data_held = c ∙ sym (joined-append data_ one);
  app_held = v.app_held;
  app_size = v.app_size;
  sort_held = v.sort_held;
  sort_size = v.sort_size;
  total = omega (
    arith,
    first_offset-longer pf allocated tmpbuf entry,
    ent_hdr_size-le pf.resource_flag,
    ap length (joined-append data_ one),
    length-append (joined data_) one,
  );
}

if-false : {A : Type 0} (test : Bool) (x y : A) → test ≡ false → (if test then x else y) ≡ y
if-false test x y h = rw h refl

unused : (uid : ℕ) (used : Bool) → (uid ≡ 0) ⊎ (used ≡ false) → (not (uid == 0) && used) ≡ false
unused uid used (inl z) = ground arith
unused uid used (inr z) = ground arith

-- The entry of a record, before it has an offset.
abbrev pub new_entry : (attrs category uid size : ℕ) → Entry
new_entry attrs category uid size = record {
  offset = pos 0;
  size = pos size;
  resource_id = 0;
  attrs = attrs / 16 % 16 * 16 + category % 16;
  kind = 0;
  uid = uid;
}

module _ (m : Allocator) where
  append_entry-Ample :
      (pf : PiFile)
      → Ample m
      → (allocated : ℕ) × (pi_file_append_entry m pf
          ≡ some (record pf {
            num_entries_allocated = allocated;
            entries = pf.entries ++ (cleared_entry ∷ []);
          }))
  unfolding pi_file_append_entry
  append_entry-Ample pf k = elim (Bool-cases (leb pf.num_entries_allocated (length pf.entries))) [
    | inl e ↦
        let count =
          if pf.num_entries_allocated == 0 then 100 else pf.num_entries_allocated * 3 / 2 in
        let (array, e') = k (32 * count) in (count, rw (e, e') refl)
    | inr e ↦ (pf.num_entries_allocated, rw e refl)
  ]

  -- The checks of pi_file_append_record.
  guarded :
      (pf : PiFile) (one : List ℕ) (attrs category uid : ℕ)
      → pf.for_writing ≡ true
      → pf.resource_flag ≡ false
      → (uid ≡ 0) ⊎ (pi_file_id_used pf.entries uid ≡ false)
      → pi_file_append_record m pf one attrs category uid
        ≡ append_bytes m pf
            (λ entry. record entry { attrs = attrs / 16 % 16 * 16 + category % 16; uid = uid })
            one
            (pi_file_append_entry m pf)
  unfolding pi_file_append_record
  guarded pf one attrs category uid w r fresh =
      if-false (not pf.for_writing || pf.resource_flag) _ _ (rw (w, r) refl)
      ∙ if-false (not (uid == 0) && pi_file_id_used pf.entries uid) _ _
          (unused uid (pi_file_id_used pf.entries uid) fresh)

  -- The last entry, and what the buffer holds.
  append_data-Ample :
      (pf : PiFile) (f : Entry → Entry) (one old : List ℕ) (tmpbuf : Buffer)
      → Ample m
      → pf.tmpbuf ≡ some tmpbuf
      → IsValid tmpbuf
      → contents tmpbuf ≡ old
      → length old + length one < 2 ^ 31
      → (tmpbuf' : Buffer) × IsValid tmpbuf'
        × (contents tmpbuf' ≡ old ++ one)
        × (append_data m pf f one pf.tmpbuf
            ≡ some (
              pos (length one),
              record pf {
                tmpbuf = some tmpbuf';
                entries =
                    on_last (λ entry. record (f entry) { size = pos (length one) }) pf.entries;
              },
            ))
  unfolding append_data
  append_data-Ample pf f [] old tmpbuf k t v e h = (
    tmpbuf,
    v,
    e ∙ sym (append-nil old),
    rw (int32-small 0 (omega arith)) (
        ap
          (λ b. some (
            pos 0,
            record pf {
              tmpbuf = b;
              entries = on_last (λ entry. record (f entry) { size = pos 0 }) pf.entries;
            },
          ))
          t),
  )
  append_data-Ample pf f (b ∷ one) old tmpbuf k t v e h =
      let fits : length (contents tmpbuf) + length (b ∷ one) < 2 ^ 64 =
        omega (arith, ap length e) in
      let (tmpbuf', e1, v', e2) = pi_buffer_append-Ample m tmpbuf (b ∷ one) k v fits in
      (
        tmpbuf',
        v',
        e2 ∙ ap (λ o. o ++ (b ∷ one)) e,
        ap (append_data m pf f (b ∷ one)) t
            ∙ rw (e1, int32-small (length (b ∷ one)) (omega arith)) refl,
      )

  append_bytes-Writable :
      (pf : PiFile) (data_ : List (List ℕ)) (app sort one : List ℕ) (f : Entry → Entry)
      → Ample m
      → Writable pf data_ app sort
      → InIndex (record (f cleared_entry) { size = pos (length one) })
      → length pf.entries + 1 < 2 ^ 16
      → first_offset pf + length app + length sort + length (joined data_) + 10 + length one
        < 2 ^ 31
      → (pf' : PiFile) × (append_bytes m pf f one (pi_file_append_entry m pf)
          ≡ some (pos (length one), pf'))
        × (pf'.entries ≡ pf.entries ++ (record (f cleared_entry) { size = pos (length one) } ∷ []))
        × Writable pf' (data_ ++ (one ∷ [])) app sort
  unfolding append_bytes
  append_bytes-Writable pf data_ app sort one f k v i n t =
      let (allocated, e1) = append_entry-Ample pf k in
      let pf1 = record pf {
        num_entries_allocated = allocated;
        entries = pf.entries ++ (cleared_entry ∷ []);
      } in
      let (tmpbuf, v', e2, e3) =
        append_data-Ample pf1 f one (joined data_) v.tmpbuf k v.has_tmpbuf v.tmpbuf_valid
          v.data_held (omega arith) in
      let entry = record (f cleared_entry) { size = pos (length one) } in
      (
        longer pf allocated tmpbuf entry,
        ap (append_bytes m pf f one) e1
            ∙ e3
            ∙ ap
                (λ entries. some (
                  pos (length one),
                  record pf {
                    num_entries_allocated = allocated;
                    tmpbuf = some tmpbuf;
                    entries = entries;
                  },
                ))
                (on_last-append (λ x. record (f x) { size = pos (length one) }) pf.entries
                  cleared_entry),
        refl,
        longer-Writable pf data_ app sort one allocated tmpbuf entry v v' e2 i refl n t,
      )

  -- pi_file_append_record, with an allocator that refuses nothing, on a structure for writing
  -- records that holds the data of its records, and with an id that is 0 or that none of
  -- them has, has no undefined behaviour, returns the number of bytes and leaves a structure that
  -- holds the data of the records before and these behind them: its entries are those before and one
  -- with the id, the high four bits of the attributes and the low four of the category. This is so as long as there are less than
  -- 65536 records and the file stays, with 10 bytes to spare, below 2 ^ 31 bytes.
  pub pi_file_append_record-Writable :
      (pf : PiFile) (data_ : List (List ℕ)) (app sort one : List ℕ) (attrs category uid : ℕ)
      → Ample m
      → Writable pf data_ app sort
      → pf.resource_flag ≡ false
      → (uid ≡ 0) ⊎ (pi_file_id_used pf.entries uid ≡ false)
      → uid < 2 ^ 24
      → length pf.entries + 1 < 2 ^ 16
      → first_offset pf + length app + length sort + length (joined data_) + 10 + length one
        < 2 ^ 31
      → (pf' : PiFile) × (pi_file_append_record m pf one attrs category uid
          ≡ some (pos (length one), pf'))
        × (pf'.entries ≡ pf.entries ++ (new_entry attrs category uid (length one) ∷ []))
        × Writable pf' (data_ ++ (one ∷ [])) app sort
  pi_file_append_record-Writable pf data_ app sort one attrs category uid k v r fresh u n t =
      let (pf', e, same, v') =
        append_bytes-Writable pf data_ app sort one
          (λ entry. record entry { attrs = attrs / 16 % 16 * 16 + category % 16; uid = uid }) k v
          (record {
            kind_bits = omega arith;
            id_bits = omega arith;
            attrs_bits = omega arith;
            uid_bits = u;
          })
          n t in
      (pf', guarded pf one attrs category uid v.writing r fresh ∙ e, same, v')
