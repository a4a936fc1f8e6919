-- ===== src/Buffer/Append.antt =====
-- What a buffer holds after the operations on it.
use pilot_link.Base.{
  ℕ, ◌+◌, ◌%◌, ◌≤◌, ◌<◌, Bool, true, false, List, [], ◌∷◌, ◌++◌, Option, none, some, ◌≡◌, refl, sym,
  ap, ◌∙◌, arith, length, leb-true, take, drop, ltb, if◌then◌else◌, Bool-cases, inl, inr, ◌⊎◌, ◌==◌,
  Option-cases,
}
use mathlib.Core.Path.{subst}
use native.Mathlib.Nat.{add-zero}
use mathlib.Core.List.{append-nil}
use pilot_link.Buffer.{
  Buffer, Allocator, size_mod, carry_over, copy_to, null_buffer, extended, put_in, pi_buffer_new,
  pi_buffer_expect, grow, pi_buffer_append, pi_buffer_clear, read_bytes, pi_buffer_append_buffer,
  shrunk,
}
use pilot_link.Buffer.Expect.{
  null_buffer-IsValid, Expected, buffer, room, no_room, total_size, pi_buffer_expect_lem,
}
use pilot_link.Buffer.Blocks.{
  IsValid, Ample, Holds, length-take, contents, stored, length-written, take-written,
  length-carried,
}

-- The bytes that a buffer has after bytes have been put in, by whether that was done.
abbrev pub longer : Bool → List ℕ → List ℕ → List ℕ
longer ok old new = if ok then old ++ new else []

abbrev pub Copied : Option (List ℕ) → ℕ → ℕ → List ℕ → Type 0
Copied block a u bytes =
    (block' : Option (List ℕ)) × (copy_to block u bytes ≡ some block')
    × IsValid (buffer block' a (u + length bytes))
    × (stored block' (u + length bytes) ≡ stored block u ++ bytes)

copied :
    (block : List ℕ) (a u x : ℕ) (bytes : List ℕ)
    → length block ≡ a
    → u + length (x ∷ bytes) ≤ a
    → a < size_mod
    → Copied (some block) a u (x ∷ bytes)
unfolding copy_to
copied block a u x bytes l h k =
    let fits : u + length (x ∷ bytes) ≤ length block = omega arith in
    (
      some (take u block ++ (x ∷ bytes) ++ drop (u + length (x ∷ bytes)) block),
      rw (leb-true (u + length (x ∷ bytes)) (length block) fits) refl,
      record { holds = (length-written block u (x ∷ bytes) fits ∙ l, h); in_range = k },
      take-written block u (x ∷ bytes) fits,
    )

pub copy_to_lem :
    (block : Option (List ℕ)) (a u : ℕ) (bytes : List ℕ)
    → IsValid (buffer block a u)
    → u + length bytes ≤ a
    → Copied block a u bytes
unfolding copy_to
copy_to_lem block a u [] v h = (
  block,
  refl,
  rw (add-zero u) v,
  ap (stored block) (add-zero u) ∙ sym (append-nil (stored block u)),
)
copy_to_lem none a u (x ∷ bytes) v h = absurd (grind arith)
copy_to_lem (some block) a u (x ∷ bytes) v h = copied block a u x bytes (v.holds.0) h v.in_range

pub read_bytes_lem :
    (bytes : Option (List ℕ)) (a u : ℕ)
    → IsValid (buffer bytes a u)
    → read_bytes bytes u ≡ some (stored bytes u)
unfolding read_bytes
read_bytes_lem none a u v = rw (v.holds.1) refl
read_bytes_lem (some block) a u v =
    rw (leb-true u (length block) (subst (λ k. u ≤ k) (sym (v.holds.0)) (v.holds.1))) refl

module _ (m : Allocator) where
  put_in_lem :
      {b : Buffer} (bytes : List ℕ) {r : Bool × Buffer}
      → Expected b (length bytes) r
      → (ok : Bool) × (b' : Buffer) × (put_in bytes r ≡ some (ok, b'))
        × IsValid b'
        × (contents b' ≡ longer ok (contents b) bytes)
  unfolding put_in
  put_in_lem bytes (room b' v same used fits) =
      let (block, e, v', held) = copy_to_lem b'.bytes b'.allocated b'.used bytes v (omega arith) in
      (
        true,
        buffer block b'.allocated (b'.used + length bytes),
        rw e (
            ap (λ k. some (true, buffer block b'.allocated k))
              (total_size b'.used (length bytes) (omega arith))),
        v',
        held ∙ ap (λ old. old ++ bytes) same,
      )
  put_in_lem bytes no_room = (false, null_buffer, refl, null_buffer-IsValid, refl)

  -- pi_buffer_append on a valid buffer, where the new size fits in size_t, has no undefined
  -- behaviour and leaves a valid buffer: it succeeds and the contents are the old ones with the
  -- bytes behind them, or it reports that memory ran out and the buffer is empty. The allocator may
  -- refuse or grant any request.
  pub pi_buffer_append_lem :
      (b : Buffer) (bytes : List ℕ)
      → IsValid b
      → b.used + length bytes < size_mod
      → (ok : Bool) × (b' : Buffer) × (pi_buffer_append m b bytes ≡ some (ok, b'))
        × IsValid b'
        × (contents b' ≡ longer ok (contents b) bytes)
  unfolding pi_buffer_append
  pi_buffer_append_lem b bytes v h = put_in_lem bytes (pi_buffer_expect_lem m b (length bytes) v h)

  -- pi_buffer_append_buffer of a valid buffer to a valid buffer, where the new size fits in size_t,
  -- has no undefined behaviour and leaves a valid buffer: the contents of the two, or on failure an
  -- empty buffer.
  pi_buffer_append_buffer_lem :
      (dest src : Buffer)
      → IsValid dest
      → IsValid src
      → dest.used + length (contents src) < size_mod
      → (ok : Bool) × (b' : Buffer) × (pi_buffer_append_buffer m dest src ≡ some (ok, b'))
        × IsValid b'
        × (contents b' ≡ longer ok (contents dest) (contents src))
  unfolding pi_buffer_append_buffer
  pi_buffer_append_buffer_lem dest src v v' h =
      rw (read_bytes_lem src.bytes src.allocated src.used v')
        (pi_buffer_append_lem dest (contents src) v h)

  shrunk_lem :
      (bytes : Option (List ℕ))
      → IsValid (extended 65535 0 (shrunk m bytes)).1
        × (contents (extended 65535 0 (shrunk m bytes)).1 ≡ [])
  unfolding extended shrunk carry_over
  shrunk_lem none = elim (Option-cases (m.malloc 65535)) [
    | inl e ↦ rw e (null_buffer-IsValid, refl)
    | inr (block, e) ↦ rw e (
      record { holds = (m.malloc_size 65535 block e, omega arith); in_range = omega arith },
      refl,
    )
  ]
  shrunk_lem (some old) = elim (Option-cases (m.malloc 65535)) [
    | inl e ↦ rw e (null_buffer-IsValid, refl)
    | inr (block, e) ↦ rw e (
      record {
        holds = (length-carried 65535 old block (m.malloc_size 65535 block e), omega arith);
        in_range = omega arith;
      },
      refl,
    )
  ]

  pub emptied :
      (bytes : Option (List ℕ)) (a u : ℕ)
      → IsValid (buffer bytes a u)
      → IsValid (buffer bytes a 0) × (stored bytes 0 ≡ [])
  emptied none a u v = (record { holds = (v.holds.0, refl); in_range = v.in_range }, refl)
  emptied (some block) a u v =
      (record { holds = (v.holds.0, omega arith); in_range = v.in_range }, refl)

  -- pi_buffer_clear leaves a valid buffer without contents, also where realloc fails.
  pub pi_buffer_clear_lem :
      (b : Buffer)
      → IsValid b
      → IsValid (pi_buffer_clear m b) × (contents (pi_buffer_clear m b) ≡ [])
  unfolding pi_buffer_clear
  pi_buffer_clear_lem b v = elim (Bool-cases (ltb 65535 b.allocated)) [
    | inl e ↦ rw e (shrunk_lem b.bytes)
    | inr e ↦ rw e (emptied b.bytes b.allocated b.used v)
  ]

  new_at :
      (size : ℕ)
      → size < size_mod
      → (block : List ℕ) → m.malloc size ≡ some block
      → IsValid (buffer (some block) size 0)
  new_at size h block e = record { holds = (m.malloc_size size block e, omega arith); in_range = h }

  pub pi_buffer_new_lem :
      (capacity : ℕ)
      → capacity < size_mod
      → (pi_buffer_new m capacity ≡ none)
        ⊎ ((b : Buffer) × (pi_buffer_new m capacity ≡ some b) × IsValid b × (contents b ≡ []))
  unfolding pi_buffer_new
  pi_buffer_new_lem capacity h =
      let size = if capacity == 0 then 16 else capacity in
      elim (Option-cases (m.malloc size)) [
        | inl e ↦ inl (rw e refl)
        | inr (block, e) ↦
            inr (buffer (some block) size 0, rw e refl, new_at size (ground arith) block e, refl)
      ]

length-stored :
    (block : Option (List ℕ)) (used allocated : ℕ)
    → Holds block allocated used
    → length (stored block used) ≡ used
length-stored none used allocated h = sym (h.1)
length-stored (some block) used allocated h = length-take used block (omega (arith, h.0, h.1))

put_in-true :
    (bytes : List ℕ) (r : Bool × Buffer) (ok : Bool) (b' : Buffer)
    → r.0 ≡ true
    → put_in bytes r ≡ some (ok, b')
    → ok ≡ true
unfolding put_in
put_in-true bytes (true, b) ok b' h e = ground arith
put_in-true bytes (false, b) ok b' h e = absurd (ground arith)

pub length-contents : (b : Buffer) → IsValid b → length (contents b) ≡ b.used
length-contents b v = length-stored b.bytes b.used b.allocated v.holds

module _ (m : Allocator) where
  pub expect-Ample : (b : Buffer) (n : ℕ) → Ample m → (pi_buffer_expect m b n).0 ≡ true
  unfolding pi_buffer_expect grow extended carry_over
  expect-Ample b n k = elim (Option-cases b.bytes) [
    | inl e ↦ let (block, e') = k n in rw (e, e') (ground arith)
    | inr (old, e) ↦ let (block, e') = k ((b.used + n) % size_mod) in rw (e, e') (ground arith)
  ]

  pub pi_buffer_append-Ample :
      (b : Buffer) (bytes : List ℕ)
      → Ample m
      → IsValid b
      → length (contents b) + length bytes < size_mod
      → (b' : Buffer) × (pi_buffer_append m b bytes ≡ some (true, b'))
        × IsValid b'
        × (contents b' ≡ contents b ++ bytes)
  unfolding pi_buffer_append
  pi_buffer_append-Ample b bytes k v h =
      let (ok, b', e, v', held) =
        pi_buffer_append_lem m b bytes v (omega (arith, length-contents b v)) in
      let fine =
        put_in-true bytes (pi_buffer_expect m b (length bytes)) ok b'
          (expect-Ample b (length bytes) k) e in
      (b', e ∙ ap (λ o. some (o, b')) fine, v', held ∙ ap (λ o. longer o (contents b) bytes) fine)
