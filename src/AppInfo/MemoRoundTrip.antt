-- ===== src/AppInfo/MemoRoundTrip.antt =====
-- The application blocks of memos and to-do lists, written and read back.
use mathlib.Core.List.{append_assoc}
use pilot_link.Base.{
  ℕ, ◌+◌, ◌-◌, ◌/◌, ◌%◌, ◌≤◌, ◌<◌, ◌^◌, List, [], ◌∷◌, ◌++◌, some, ◌≡◌, refl, sym, ap, ◌∙◌, arith,
  leb-true, ltb-false, length, take, drop, length-append, take-append_left,
}
use pilot_link.Buffer.Blocks.{length-drop}
use pilot_link.Macros.{get_byte, get_short, set_byte, set_short}
use pilot_link.AppInfo.{
  CategoryAppInfo, pack_names, packed, unpack_category_app_info, pack_category_app_info,
}
use pilot_link.AppInfo.RoundTrip.{IsValid, packed-laid_out, unpack-laid_out, names_size, drop-exact}
use pilot_link.AppInfo.Memo.{
  MemoAppInfo, ToDoAppInfo, write_four, with_sorting, unpack_memo_app_info, add_sorting,
  pack_memo_app_info, with_priority, unpack_to_do_app_info, add_priority, pack_to_do_app_info,
}

length-packed : (ai : CategoryAppInfo) → IsValid ai → length (packed ai) ≡ 278
unfolding packed set_short set_byte
length-packed ai v =
    let last = ai.last_unique_id % 256 ∷ 0 ∷ 0 ∷ 0 ∷ [] in
    omega (
      arith,
      length-append (pack_names ai.name) (ai.id ++ last),
      length-append ai.id last,
      names_size ai v,
      v.id_size,
    )

pack_category :
    (ai : CategoryAppInfo) (memory : List ℕ) (len : ℕ)
    → 278 ≤ length memory
    → 278 ≤ len
    → pack_category_app_info ai (some memory) len ≡ some (278, some (packed ai ++ drop 278 memory))
unfolding pack_category_app_info
pack_category ai memory len h k = rw (ltb-false len 278 k, leb-true 278 (length memory) h) refl

-- The memory with a category block and four bytes behind it.
abbrev with_four : CategoryAppInfo → List ℕ → List ℕ → List ℕ
with_four ai four memory = packed ai ++ (four ++ drop 282 (packed ai ++ drop 278 memory))

write_four-packed :
    (ai : CategoryAppInfo) (four memory : List ℕ)
    → IsValid ai
    → 282 ≤ length memory
    → write_four 278 four (packed ai ++ drop 278 memory) ≡ some (with_four ai four memory)
unfolding write_four
write_four-packed ai four memory v h =
    let after = drop 278 memory in
    rw
      (leb-true 282 (length (packed ai ++ after)) (
        omega (arith, length-append (packed ai) after, length-packed ai v, length-drop 278 memory)))
      (ap (λ bytes. some (bytes ++ (four ++ drop 282 (packed ai ++ after))))
        (ap (λ n. take n (packed ai ++ after)) (sym (length-packed ai v))
          ∙ take-append_left (packed ai) after))

category_read :
    (ai : CategoryAppInfo) (rest : List ℕ) (len : ℕ)
    → IsValid ai
    → 278 ≤ len
    → unpack_category_app_info (packed ai ++ rest) len ≡ some (278, some ai)
category_read ai rest len v h =
    ap (λ bytes. unpack_category_app_info bytes len) (packed-laid_out ai rest)
    ∙ unpack-laid_out ai rest len v h

drop-packed :
    (ai : CategoryAppInfo) (xs rest : List ℕ) (n : ℕ)
    → IsValid ai
    → n ≡ 278 + length xs
    → drop n (packed ai ++ (xs ++ rest)) ≡ rest
drop-packed ai xs rest n v h =
    ap (drop n) (sym (append_assoc (packed ai) xs rest))
    ∙ drop-exact n (packed ai ++ xs) rest
        (omega (arith, length-append (packed ai) xs, length-packed ai v))

-- A valid memo block that is packed into at least 282 bytes of memory is read back from there,
-- and both say that they used 282 bytes.
pub unpack_memo_app_info-pack_memo_app_info :
    (app_info : MemoAppInfo) (memory : List ℕ) (len len' : ℕ)
    → IsValid app_info.category
    → app_info.sort_by_alpha < 256
    → 282 ≤ length memory
    → 282 ≤ len
    → 282 ≤ len'
    → (written : List ℕ) × (pack_memo_app_info app_info (some memory) len
        ≡ some (282, some written))
      × (unpack_memo_app_info written len' ≡ some (282, some app_info))
unfolding pack_memo_app_info unpack_memo_app_info add_sorting with_sorting set_short set_byte
    get_byte
unpack_memo_app_info-pack_memo_app_info app_info memory len len' v b h k l =
    let ai = app_info.category in
    let four = 0 ∷ 0 ∷ (app_info.sort_by_alpha % 256) ∷ 0 ∷ [] in
    (
      with_four ai four memory,
      rw
          (
            pack_memo_app_info,
            pack_category ai memory len (omega arith) (omega arith),
            add_sorting,
            ltb-false (len - 278) 4 (omega arith),
            write_four-packed ai four memory v h,
          )
          refl,
      rw
          (
            unpack_memo_app_info,
            category_read ai (four ++ drop 282 (packed ai ++ drop 278 memory)) len' v (omega arith),
            with_sorting,
            leb-true 4 (len' - 278) (omega arith),
            drop-packed ai (0 ∷ 0 ∷ [])
                (app_info.sort_by_alpha % 256 ∷ 0 ∷ drop 282 (packed ai ++ drop 278 memory)) 280 v
                (omega arith),
          )
          (ap (λ (sort : ℕ). some (282, some (record { category = ai; sort_by_alpha = sort })))
            (omega (arith, b))),
    )

-- A valid to-do block, its flags of 16 and 8 bits, that is packed into at least 282 bytes of memory
-- is read back from there, and both say that they used 282 bytes.
pub unpack_to_do_app_info-pack_to_do_app_info :
    (app_info : ToDoAppInfo) (memory : List ℕ) (len len' : ℕ)
    → IsValid app_info.category
    → app_info.dirty < 2 ^ 16
    → app_info.sort_by_priority < 256
    → 282 ≤ length memory
    → 282 ≤ len
    → 282 ≤ len'
    → (written : List ℕ) × (pack_to_do_app_info app_info (some memory) len
        ≡ some (282, some written))
      × (unpack_to_do_app_info written len' ≡ some (282, some app_info))
unfolding pack_to_do_app_info unpack_to_do_app_info add_priority with_priority set_short set_byte
    get_byte get_short
unpack_to_do_app_info-pack_to_do_app_info app_info memory len len' v c b h k l =
    let ai = app_info.category in
    let rest = drop 282 (packed ai ++ drop 278 memory) in
    let high = app_info.dirty / 256 % 256 in
    let low = app_info.dirty % 256 in
    let sort = app_info.sort_by_priority % 256 in
    (
      with_four ai (high ∷ low ∷ sort ∷ 0 ∷ []) memory,
      rw
          (
            pack_to_do_app_info,
            pack_category ai memory len (omega arith) (omega arith),
            add_priority,
            ltb-false (len - 278) 4 (omega arith),
            write_four-packed ai (high ∷ low ∷ sort ∷ 0 ∷ []) memory v h,
          )
          refl,
      rw
          (
            unpack_to_do_app_info,
            category_read ai (high ∷ low ∷ sort ∷ 0 ∷ rest) len' v (omega arith),
            with_priority,
            ltb-false (len' - 278) 4 (omega arith),
            drop-packed ai [] (high ∷ low ∷ sort ∷ 0 ∷ rest) 278 v (omega arith),
            drop-packed ai (high ∷ low ∷ []) (sort ∷ 0 ∷ rest) 280 v (omega arith),
          )
          (ap
              (λ (n : ℕ).
                some (282, some (record { category = ai; dirty = n; sort_by_priority = sort })))
              (omega (arith, c))
            ∙ ap
                (λ (n : ℕ). some (
                  282,
                  some (record { category = ai; dirty = app_info.dirty; sort_by_priority = n }),
                ))
                (omega (arith, b))),
    )
