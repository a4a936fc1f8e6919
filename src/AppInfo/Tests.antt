-- ===== src/AppInfo/Tests.antt =====
-- A category block with two renamed categories.
use pilot_link.Base.{ℕ, zero, suc, List, ◌∷◌, some, ◌≡◌, refl, arith, length, replicate, All}
use pilot_link.AppInfo.{CategoryAppInfo, unpack_category_app_info, pack_category_app_info}
use pilot_link.AppInfo.Memo.{
  MemoAppInfo, ToDoAppInfo, pack_memo_app_info, unpack_memo_app_info, pack_to_do_app_info,
  unpack_to_do_app_info,
}
use pilot_link.AppInfo.MemoRoundTrip.{
  unpack_memo_app_info-pack_memo_app_info, unpack_to_do_app_info-pack_to_do_app_info,
}
use pilot_link.AppInfo.RoundTrip.{IsValid, unpack_category_app_info-pack_category_app_info}

sizes : (n : ℕ) → All (λ (one : List ℕ). length one ≡ 16) (replicate n (replicate 16 65))
sizes zero = tt
sizes (suc n) = (refl, sizes n)

abbrev pub sample : CategoryAppInfo
sample = record {
  renamed = 1 ∷ 0 ∷ 1 ∷ replicate 13 0;
  name = replicate 16 (replicate 16 65);
  id = replicate 16 7;
  last_unique_id = 200;
}

pub sample-IsValid : IsValid sample
sample-IsValid = record {
  flags = ground arith;
  flag_count = refl;
  name_sizes = sizes 16;
  name_count = refl;
  id_size = refl;
  last_byte = omega arith;
}

unpack_category_app_info-pack_category_app_info_example :
    (written : List ℕ) × (pack_category_app_info sample (some (replicate 300 9)) 278
      ≡ some (278, some written))
    × (unpack_category_app_info written 300 ≡ some (278, some sample))
unpack_category_app_info-pack_category_app_info_example =
    unpack_category_app_info-pack_category_app_info sample (replicate 300 9) 278 300 sample-IsValid
      (omega arith) (omega arith) (omega arith)

abbrev memos : MemoAppInfo
memos = record { category = sample; sort_by_alpha = 1 }

abbrev tasks : ToDoAppInfo
tasks = record { category = sample; dirty = 513; sort_by_priority = 1 }

unpack_memo_app_info-pack_memo_app_info_example :
    (written : List ℕ) × (pack_memo_app_info memos (some (replicate 300 9)) 282
      ≡ some (282, some written))
    × (unpack_memo_app_info written 300 ≡ some (282, some memos))
unpack_memo_app_info-pack_memo_app_info_example =
    unpack_memo_app_info-pack_memo_app_info memos (replicate 300 9) 282 300 sample-IsValid
      (omega arith) (omega arith) (omega arith) (omega arith)

unpack_to_do_app_info-pack_to_do_app_info_example :
    (written : List ℕ) × (pack_to_do_app_info tasks (some (replicate 300 9)) 282
      ≡ some (282, some written))
    × (unpack_to_do_app_info written 300 ≡ some (282, some tasks))
unpack_to_do_app_info-pack_to_do_app_info_example =
    unpack_to_do_app_info-pack_to_do_app_info tasks (replicate 300 9) 282 300 sample-IsValid
      (omega arith) (omega arith) (omega arith) (omega arith) (omega arith)
