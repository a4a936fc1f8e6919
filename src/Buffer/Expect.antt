-- ===== src/Buffer/Expect.antt =====
-- What pi_buffer_expect leaves.
use pilot_link.Base.{
  ℕ, ◌+◌, ◌-◌, ◌%◌, ◌≤◌, ◌<◌, Bool, true, false, List, ◌++◌, Option, none, some, ◌≡◌, refl, ap,
  arith, length, take, drop, leb, Bool-cases, inl, inr, Option-cases,
}
use pilot_link.Buffer.{
  Buffer, Allocator, size_mod, carry_over, null_buffer, grow, extended, pi_buffer_expect,
}
use pilot_link.Buffer.Blocks.{IsValid, contents, length-carried, take-carried}

pub null_buffer-IsValid : IsValid null_buffer
null_buffer-IsValid = record { holds = (refl, refl); in_range = omega arith }

-- What pi_buffer_expect leaves: a buffer with room and the same bytes, or the empty one.
pub data Expected (b : Buffer) (n : ℕ) : Bool × Buffer → Type 0 where
  room :
      (b' : Buffer)
      → IsValid b'
      → contents b' ≡ contents b
      → b'.used ≡ b.used
      → b'.used + n ≤ b'.allocated
      → Expected b n (true, b')
  no_room : Expected b n (false, null_buffer)

abbrev pub buffer : Option (List ℕ) → ℕ → ℕ → Buffer
buffer bytes allocated used = record { bytes = bytes; allocated = allocated; used = used }

-- The pointer holds a block that carries the old one over.
grown :
    (old block : List ℕ) (a u n : ℕ)
    → IsValid (buffer (some old) a u)
    → u + n < size_mod
    → length block ≡ u + n
    → Expected
        (buffer (some old) a u)
        n
        (true, buffer (some (take (u + n) old ++ drop (length old) block)) (u + n) u)
grown old block a u n v h l =
    room (buffer (some (take (u + n) old ++ drop (length old) block)) (u + n) u)
      (record { holds = (length-carried (u + n) old block l, omega arith); in_range = h })
      (take-carried u (u + n) old (drop (length old) block) (omega arith) (grind arith)) refl
      (omega arith)

fresh :
    (block : List ℕ) (a u n : ℕ)
    → IsValid (buffer none a u)
    → u + n < size_mod
    → length block ≡ n
    → Expected (buffer none a u) n (true, buffer (some block) (u + n) u)
fresh block a u n v h l =
    room (buffer (some block) (u + n) u)
      (record { holds = (grind arith, omega arith); in_range = h })
      (ap (λ k. take k block) (v.holds.1)) refl (omega arith)

pub roomy :
    (bytes : Option (List ℕ)) (a u n : ℕ)
    → IsValid (buffer bytes a u)
    → n ≤ a - u
    → u ≤ a
    → Expected (buffer bytes a u) n (true, buffer bytes a u)
roomy bytes a u n v h k = room (buffer bytes a u) v refl refl (omega arith)

pub used-le : (bytes : Option (List ℕ)) (a u : ℕ) → IsValid (buffer bytes a u) → u ≤ a
used-le none a u v = grind arith
used-le (some block) a u v = v.holds.1

free_space : (a u : ℕ) → u ≤ a → a < size_mod → (a + size_mod - u) % size_mod ≡ a - u
free_space a u h k = omega arith

pub total_size : (u n : ℕ) → u + n < size_mod → (u + n) % size_mod ≡ u + n
total_size u n h = omega arith

module _ (m : Allocator) where
  grow_lem :
      (bytes : Option (List ℕ)) (a u n : ℕ)
      → IsValid (buffer bytes a u)
      → u + n < size_mod
      → Expected (buffer bytes a u) n (extended (u + n) u (grow m bytes (u + n) n))
  unfolding extended grow carry_over
  grow_lem none a u n v h = elim (Option-cases (m.malloc n)) [
    | inl e ↦ rw e no_room
    | inr (block, e) ↦ rw e (fresh block a u n v h (m.malloc_size n block e))
  ]
  grow_lem (some old) a u n v h = elim (Option-cases (m.malloc (u + n))) [
    | inl e ↦ rw e no_room
    | inr (block, e) ↦ rw e (grown old block a u n v h (m.malloc_size (u + n) block e))
  ]

  expect_at :
      (bytes : Option (List ℕ)) (a u n : ℕ)
      → IsValid (buffer bytes a u)
      → u + n < size_mod
      → Expected (buffer bytes a u) n (pi_buffer_expect m (buffer bytes a u) n)
  unfolding pi_buffer_expect
  expect_at bytes a u n v h =
      rw (free_space a u (used-le bytes a u v) v.in_range) (elim (Bool-cases (leb n (a - u))) [
        | inl fits ↦ rw fits (roomy bytes a u n v (grind arith) (used-le bytes a u v))
        | inr full ↦ rw (full, total_size u n h) (grow_lem bytes a u n v h)
      ])

  pub pi_buffer_expect_lem :
      (b : Buffer) (n : ℕ)
      → IsValid b
      → b.used + n < size_mod
      → Expected b n (pi_buffer_expect m b n)
  pi_buffer_expect_lem b n v h = expect_at b.bytes b.allocated b.used n v h
