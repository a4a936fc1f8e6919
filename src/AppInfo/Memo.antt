-- ===== src/AppInfo/Memo.antt =====
-- libpisock/memo.c and libpisock/todo.c: the application blocks of memos and to-do lists.
use pilot_link.Base.{
  ℕ, ◌+◌, ◌-◌, ◌==◌, List, ◌++◌, Option, none, some, length, take, drop, leb, ltb, if◌then◌else◌,
}
use pilot_link.Base.Partial.{◌>>=◌}
use pilot_link.Macros.{get_byte, get_short, set_byte, set_short}
use pilot_link.AppInfo.{CategoryAppInfo, unpack_category_app_info, pack_category_app_info}

-- The type is memo_v1 throughout.
pub record MemoAppInfo : Type 0 where
  pub category : CategoryAppInfo
  pub sort_by_alpha : ℕ

-- The type is todo_v1 throughout.
pub record ToDoAppInfo : Type 0 where
  pub category : CategoryAppInfo
  pub dirty : ℕ
  pub sort_by_priority : ℕ

-- Four bytes written at an offset of the memory.
unfoldable pub write_four : ℕ → List ℕ → List ℕ → Option (List ℕ)
write_four at four memory =
    if leb (at + 4) (length memory)
    then some (take at memory ++ (four ++ drop (at + 4) memory))
    else none

unfoldable pub with_sorting : List ℕ → ℕ → ℕ → CategoryAppInfo → Option (ℕ × Option MemoAppInfo)
with_sorting bytes len i category =
    if leb 4 (len - i)
    then (do
      sort ← get_byte (drop (i + 2) bytes)
      some (i + 4, some (record { category = category; sort_by_alpha = sort })))
    else some (i, some (record { category = category; sort_by_alpha = 0 }))

-- What it returns, and the structure where the category block is read.
unfoldable pub unpack_memo_app_info : List ℕ → ℕ → Option (ℕ × Option MemoAppInfo)
unpack_memo_app_info bytes len = elim (unpack_category_app_info bytes len) [
  | none ↦ none
  | some result ↦ elim result.1 [
    | none ↦ some (result.0, none)
    | some category ↦ with_sorting bytes len result.0 category
  ]
]

unfoldable pub add_sorting : MemoAppInfo → List ℕ → ℕ → ℕ → Option (ℕ × Option (List ℕ))
add_sorting app_info memory len i =
    if i == 0 then some (0, some memory) else if ltb (len - i) 4 then some (i, some memory) else (do
      written ← write_four i (set_short 0 ++ (set_byte app_info.sort_by_alpha ++ set_byte 0)) memory
      some (i + 4, some written))

unfoldable pub pack_memo_app_info : MemoAppInfo → Option (List ℕ) → ℕ → Option (ℕ × Option (List ℕ))
pack_memo_app_info app_info record_ len =
    elim (pack_category_app_info app_info.category record_ len) [
      | none ↦ none
      | some result ↦ elim result.1 [
        | none ↦ some (result.0 + 4, none)
        | some memory ↦ add_sorting app_info memory len result.0
      ]
    ]

unfoldable pub with_priority : List ℕ → ℕ → ℕ → CategoryAppInfo → Option (ℕ × Option ToDoAppInfo)
with_priority bytes len i category = if ltb (len - i) 4 then some (0, none) else (do
  dirty ← get_short (drop i bytes)
  sort ← get_byte (drop (i + 2) bytes)
  some (i + 4, some (record { category = category; dirty = dirty; sort_by_priority = sort })))

-- What it returns, and the structure where it is read whole.
unfoldable pub unpack_to_do_app_info : List ℕ → ℕ → Option (ℕ × Option ToDoAppInfo)
unpack_to_do_app_info bytes len = elim (unpack_category_app_info bytes len) [
  | none ↦ none
  | some result ↦ elim result.1 [
    | none ↦ some (0, none)
    | some category ↦ with_priority bytes len result.0 category
  ]
]

unfoldable pub add_priority : ToDoAppInfo → List ℕ → ℕ → ℕ → Option (ℕ × Option (List ℕ))
add_priority app_info memory len i =
    if i == 0 then some (0, some memory) else if ltb (len - i) 4 then some (0, some memory) else (do
      written ←
          write_four i
            (set_short app_info.dirty ++ (set_byte app_info.sort_by_priority ++ set_byte 0)) memory
      some (i + 4, some written))

unfoldable pub pack_to_do_app_info :
    ToDoAppInfo → Option (List ℕ) → ℕ → Option (ℕ × Option (List ℕ))
pack_to_do_app_info app_info record_ len =
    elim (pack_category_app_info app_info.category record_ len) [
      | none ↦ none
      | some result ↦ elim result.1 [
        | none ↦ some (result.0 + 4, none)
        | some memory ↦ add_priority app_info memory len result.0
      ]
    ]
