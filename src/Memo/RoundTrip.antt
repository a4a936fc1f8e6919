-- ===== src/Memo/RoundTrip.antt =====
-- A memo that is packed into a buffer, unpacked.
use mathlib.Core.Path.{subst}
use native.Mathlib.Nat.{zero-add}
use pilot_link.Base.{
  ℕ, zero, suc, ◌+◌, ◌≤◌, ◌<◌, Bool, true, List, [], ◌∷◌, ◌++◌, Option, none, some, ◌≡◌, refl, sym,
  ap, ◌∙◌, arith, length, take, drop, All, ltb-false, length-append,
}
use pilot_link.Base.Int.{pos}
use pilot_link.Buffer.{Buffer, Allocator, pi_buffer_expect, copy_to, size_mod}
use pilot_link.Buffer.Blocks.{IsValid, stored}
use pilot_link.Buffer.Expect.{Expected, room, no_room, buffer, pi_buffer_expect_lem}
use pilot_link.Buffer.Append.{copy_to_lem, emptied}
use pilot_link.Memo.{Memo, memo_v1, c_string, unpack_block, unpack_memo, string_bytes, pack_memo}

abbrev pub IsText : List ℕ → Type 0
IsText text = All (λ b. 0 < b) text

pub take-drop : (n : ℕ) (xs : List ℕ) → take n xs ++ drop n xs ≡ xs
take-drop zero xs = refl
take-drop (suc n) [] = refl
take-drop (suc n) (x ∷ xs) = ap (◌∷◌ x) (take-drop n xs)

pub c_string-text :
    (text rest : List ℕ) → IsText text → c_string (text ++ (0 ∷ []) ++ rest) ≡ some text
unfolding c_string
c_string-text [] rest h = refl
c_string-text (zero ∷ text) rest h = absurd (omega (arith, h.0))
c_string-text (suc b ∷ text) rest h = rw (c_string-text text rest (h.1)) refl

c_string-block :
    (text block : List ℕ) (n : ℕ)
    → IsText text
    → take n block ≡ text ++ (0 ∷ [])
    → c_string block ≡ some text
c_string-block text block n h e =
    ap c_string (sym (take-drop n block))
    ∙ ap (λ front. c_string (front ++ drop n block)) e
    ∙ c_string-text text (drop n block) h

abbrev memo_of : List ℕ → Memo
memo_of text = record { text = some text }

unpack_block-text :
    (block : Option (List ℕ)) (text : List ℕ)
    → IsText text
    → stored block (length (text ++ (0 ∷ []))) ≡ text ++ (0 ∷ [])
    → unpack_block block (length (text ++ (0 ∷ []))) ≡ some (pos 0, some (memo_of text))
unfolding unpack_block
unpack_block-text none text h e = absurd (omega (arith, ap length e, length-append text (0 ∷ [])))
unpack_block-text (some block) text h e =
    rw
      (
        ltb-false (length (text ++ (0 ∷ []))) 1 (omega (arith, length-append text (0 ∷ []))),
        c_string-block text block (length (text ++ (0 ∷ []))) h e,
      )
      refl

pub has_room :
    {b : Buffer} {n : ℕ} {r : Bool × Buffer}
    → Expected b n r
    → r.0 ≡ true
    → IsValid r.1 × (n ≤ r.1.allocated)
has_room (room b' v same used fits) e = (v, omega arith)
has_room no_room e = absurd (ground arith)

module _ (m : Allocator) where
  pub copied_text :
      (bytes : Option (List ℕ)) (a u : ℕ) (text : List ℕ)
      → IsValid (buffer bytes a u)
      → length text ≤ a
      → (block : Option (List ℕ)) × (copy_to bytes 0 text ≡ some block)
        × IsValid (buffer block a (length text))
        × (stored block (length text) ≡ text)
  copied_text bytes a u text v h =
      let (block, e, v', held) =
        copy_to_lem bytes a 0 text ((emptied m bytes a u v).0) (rw (zero-add (length text)) h) in
      (
        block,
        e,
        subst (λ k. IsValid (buffer block a k)) (zero-add (length text)) v',
        ap (stored block) (sym (zero-add (length text)))
            ∙ held
            ∙ ap (λ front. front ++ text) ((emptied m bytes a u v).1),
      )

  -- A memo's text, packed into a valid buffer where pi_buffer_expect makes room for it, is
  -- unpacked from there, and the buffer stays valid.
  pub unpack_memo-pack_memo :
      (text : List ℕ) (b : Buffer)
      → IsText text
      → IsValid b
      → b.used + length (text ++ (0 ∷ [])) < size_mod
      → (pi_buffer_expect m b (length (text ++ (0 ∷ [])))).0 ≡ true
      → (b' : Buffer) × (pack_memo m (record { text = some text }) (some b) memo_v1
          ≡ some (pos 0, some b'))
        × IsValid b'
        × (unpack_memo (some b') memo_v1 ≡ some (pos 0, some (record { text = some text })))
  unfolding pack_memo string_bytes unpack_memo
  unpack_memo-pack_memo text b t v h e =
      let bytes = text ++ (0 ∷ []) in
      let r = (pi_buffer_expect m b (length bytes)).1 in
      let (v', fits) = has_room (pi_buffer_expect_lem m b (length bytes) v h) e in
      let (block, copied_, v'', held) = copied_text r.bytes r.allocated r.used bytes v' fits in
      (
        buffer block r.allocated (length bytes),
        rw (pack_memo, copied_) refl,
        v'',
        unpack_block-text block text t held,
      )
