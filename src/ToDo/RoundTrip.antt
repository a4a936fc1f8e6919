-- ===== src/ToDo/RoundTrip.antt =====
-- A to-do record that is packed into a buffer, unpacked.
use pilot_link.Base.{
  ℕ, suc, ◌+◌, ◌*◌, ◌^◌, ◌<◌, true, false, List, [], ◌∷◌, ◌++◌, Option, none, some, ◌≡◌, refl, sym,
  ap, ◌∙◌, arith, length, drop, length-append, drop-append_left, ltb-false,
}
use mathlib.Core.List.{append_assoc}
use mathlib.Core.Path.{subst}
use pilot_link.Base.Int.{pos}
use pilot_link.Buffer.{Buffer, Allocator, pi_buffer_expect, size_mod}
use pilot_link.Buffer.Blocks.{IsValid, Ample, stored}
use pilot_link.Buffer.Expect.{buffer, pi_buffer_expect_lem}
use pilot_link.Macros.{get_byte, get_short}
use pilot_link.Memo.{string_bytes}
use pilot_link.Memo.RoundTrip.{IsText, take-drop, c_string-text, has_room, copied_text}
use pilot_link.ToDo.{
  Tm, ToDo, todo_v1, unpack_due, strdup, at_end, unpack_note, unpack_strings, unpack_record,
  unpack_to_do, to_do_bytes, dest_len, strlen, pack_due, pack_priority, pack_to_do,
}
use pilot_link.ToDo.Dates.{
  IsDue, due_after, with_due, unpack_due-pack_due, unpack_priority-pack_priority,
}

-- What the packed string stands for.
abbrev pub text_of : Option (List ℕ) → List ℕ
text_of none = []
text_of (some text) = text

pub record IsPackable (todo : ToDo) : Type 0 where
  pub due_fits : IsDue todo.indefinite todo.due
  pub priority_bits : todo.priority < 128
  pub description_text : IsText (text_of todo.description)
  pub note_text : IsText (text_of todo.note)

-- The record after unpacking, where `before` was there.
abbrev pub unpacked : (Tm → Tm) → ToDo → ToDo → ToDo
unpacked mktime todo before = record {
  indefinite = todo.indefinite;
  due = due_after mktime todo.indefinite todo.due before.due;
  priority = todo.priority;
  complete = todo.complete;
  description = some (text_of todo.description);
  note = some (text_of todo.note);
}

string_bytes-text_of : (string : Option (List ℕ)) → string_bytes string ≡ text_of string ++ (0 ∷ [])
unfolding string_bytes
string_bytes-text_of none = refl
string_bytes-text_of (some text) = refl

strlen-text_of : (string : Option (List ℕ)) → strlen string ≡ length (text_of string)
strlen-text_of none = refl
strlen-text_of (some text) = refl

pub strdup-text :
    (m : Allocator) (text rest : List ℕ)
    → Ample m
    → IsText text
    → strdup m (text ++ (0 ∷ []) ++ rest) ≡ some (some text)
unfolding strdup
strdup-text m text rest k h =
    let (block, e) = k (length text + 1) in rw (c_string-text text rest h, e) refl

pub at_end-inside : (used ofs : ℕ) → ofs < used → used < size_mod → at_end used ofs ≡ false
unfolding at_end
at_end-inside used ofs h l = ground arith

-- The strings of a packed record, from its fourth byte on.
abbrev strings : (description note rest : List ℕ) → List ℕ
strings description note rest = description ++ (0 ∷ []) ++ (note ++ (0 ∷ []) ++ rest)

note_part :
    (a b c : ℕ) (description note rest : List ℕ)
    → drop (3 + (length description + 1)) (a ∷ b ∷ c ∷ strings description note rest)
      ≡ note ++ (0 ∷ []) ++ rest
note_part a b c description note rest =
    let front = description ++ (0 ∷ []) in
    let size : 3 + (length description + 1) ≡ suc (suc (suc (length front))) =
      omega (arith, length-append description (0 ∷ [])) in
    rw size (drop-append_left front (note ++ (0 ∷ []) ++ rest))

unpack_strings-packed :
    (m : Allocator) (todo : ToDo) (a b c : ℕ) (description note rest : List ℕ) (used : ℕ)
    → Ample m
    → IsText description
    → IsText note
    → 3 + length description + 1 + length note + 1 ≡ used
    → used < size_mod
    → unpack_strings m todo (a ∷ b ∷ c ∷ strings description note rest) used
      ≡ some (pos 0, record todo { description = some description; note = some note })
unfolding unpack_strings unpack_note
unpack_strings-packed m todo a b c description note rest used k h l e u =
    rw
      (
        at_end-inside used 3 (omega arith) u,
        strdup-text m description (note ++ (0 ∷ []) ++ rest) k h,
        at_end-inside used (3 + (length description + 1)) (omega arith) u,
        note_part a b c description note rest,
        strdup-text m note rest k l,
      )
      refl

unpack_record-packed :
    (m : Allocator) (mktime : Tm → Tm) (todo before : ToDo) (a b : ℕ) (rest : List ℕ) (used : ℕ)
    → Ample m
    → IsPackable todo
    → unpack_due mktime before (a * 2 ^ 8 + b)
      ≡ with_due before todo.indefinite (due_after mktime todo.indefinite todo.due before.due)
    → dest_len todo ≡ used
    → used < size_mod
    → unpack_record m mktime before
        (some (
          a
          ∷ b
          ∷ pack_priority todo.complete todo.priority
          ∷ strings (text_of todo.description) (text_of todo.note) rest))
        used
      ≡ some (pos 0, unpacked mktime todo before)
unfolding unpack_record get_short get_byte dest_len
unpack_record-packed m mktime todo before a b rest used k v e u l =
    let due =
      with_due before todo.indefinite (due_after mktime todo.indefinite todo.due before.due) in
    let size : 3 + length (text_of todo.description) + 1 + length (text_of todo.note) + 1 ≡ used =
      omega (arith, strlen-text_of todo.description, strlen-text_of todo.note) in
    rw
      (
        ltb-false used 3 (omega arith),
        e,
        unpack_priority-pack_priority due todo.complete todo.priority v.priority_bits,
        unpack_strings-packed m (record due { priority = todo.priority; complete = todo.complete })
            a b (pack_priority todo.complete todo.priority) (text_of todo.description)
            (text_of todo.note) rest used k v.description_text v.note_text size l,
      )
      refl

-- The bytes of a packed record whose date takes the bytes `a` and `b`.
abbrev content : (todo : ToDo) → (a b : ℕ) → List ℕ
content todo a b =
    a
    ∷ b
    ∷ pack_priority todo.complete todo.priority
    ∷ (string_bytes todo.description ++ string_bytes todo.note)

to_do_bytes-content :
    (todo : ToDo) (a b : ℕ)
    → pack_due todo.indefinite todo.due ≡ some (a ∷ b ∷ [])
    → to_do_bytes todo ≡ some (content todo a b)
unfolding to_do_bytes
to_do_bytes-content todo a b e = rw e refl

length-content : (todo : ToDo) (a b : ℕ) → length (content todo a b) ≡ dest_len todo
unfolding dest_len
length-content todo a b =
    let d = text_of todo.description in
    let n = text_of todo.note in
    rw (string_bytes-text_of todo.description, string_bytes-text_of todo.note)
      (omega (
        arith,
        length-append (d ++ (0 ∷ [])) (n ++ (0 ∷ [])),
        length-append d (0 ∷ []),
        length-append n (0 ∷ []),
        strlen-text_of todo.description,
        strlen-text_of todo.note,
      ))

content-strings :
    (todo : ToDo) (a b : ℕ) (rest : List ℕ)
    → content todo a b ++ rest
      ≡ a
        ∷ b
        ∷ pack_priority todo.complete todo.priority
        ∷ strings (text_of todo.description) (text_of todo.note) rest
content-strings todo a b rest =
    let d = text_of todo.description in
    let n = text_of todo.note in
    rw (string_bytes-text_of todo.description, string_bytes-text_of todo.note)
      (ap (λ bytes. a ∷ b ∷ pack_priority todo.complete todo.priority ∷ bytes)
        (append_assoc (d ++ (0 ∷ [])) (n ++ (0 ∷ [])) rest))

pub stored-front :
    (block : Option (List ℕ)) (n x : ℕ) (xs : List ℕ)
    → stored block n ≡ x ∷ xs
    → (rest : List ℕ) × (block ≡ some ((x ∷ xs) ++ rest))
stored-front none n x xs e = absurd (omega (arith, ap length e))
stored-front (some block) n x xs e =
    (drop n block, ap some (sym (take-drop n block) ∙ ap (λ front. front ++ drop n block) e))

-- A to-do record, packed into a valid buffer where pi_buffer_expect makes room for it and the
-- allocator refuses nothing, is unpacked from there, and the buffer stays valid. Its priority is
-- below 128, its strings are text and its date, if it has one, lies in the years 1904 to 2031: the
-- date comes back as mktime gives it for that day's midnight, and missing strings as empty ones.
pub unpack_to_do-pack_to_do :
    (m : Allocator) (mktime : Tm → Tm) (todo before : ToDo) (b : Buffer)
    → Ample m
    → IsPackable todo
    → IsValid b
    → b.used + dest_len todo < size_mod
    → (pi_buffer_expect m b (dest_len todo)).0 ≡ true
    → (b' : Buffer) × (pack_to_do m todo (some b) todo_v1 ≡ some (pos 0, some b'))
      × IsValid b'
      × (unpack_to_do m mktime before (some b') todo_v1 ≡ some (pos 0, unpacked mktime todo before))
unfolding pack_to_do unpack_to_do
unpack_to_do-pack_to_do m mktime todo before b k p v h e =
    let r = (pi_buffer_expect m b (dest_len todo)).1 in
    let (x, y, packed_, due) =
      unpack_due-pack_due mktime before todo.indefinite todo.due p.due_fits in
    let bytes = content todo x y in
    let size = length-content todo x y in
    let (v', fits) = has_room (pi_buffer_expect_lem m b (dest_len todo) v h) e in
    let (block, copied_, v'', held) =
      copied_text m r.bytes r.allocated r.used bytes v' (rw size fits) in
    let (rest, whole) = stored-front block (length bytes) _ _ held in
    (
      buffer block r.allocated (dest_len todo),
      rw (to_do_bytes-content todo x y packed_, copied_) refl,
      subst (λ n. IsValid (buffer block r.allocated n)) size v'',
      ap (λ o. unpack_record m mktime before o (dest_len todo))
            (whole ∙ ap some (content-strings todo x y rest))
          ∙ unpack_record-packed m mktime todo before x y rest (dest_len todo) k p due refl
              (omega arith),
    )
