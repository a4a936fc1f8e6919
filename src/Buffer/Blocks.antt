-- ===== src/Buffer/Blocks.antt =====
-- Blocks of the buffers: their sizes, and the invariant of a buffer.
use pilot_link.Base.{
  ℕ, zero, suc, ◌+◌, ◌-◌, ◌≤◌, ◌<◌, List, [], ◌∷◌, ◌++◌, Option, none, some, ◌≡◌, refl, ap, arith,
  length, take, drop, length-append,
}
use pilot_link.Buffer.{Buffer, Allocator, size_mod}

-- The block has the size that the buffer remembers, and the used bytes lie in it.
abbrev pub Holds : Option (List ℕ) → ℕ → ℕ → Type 0
Holds none allocated used = (allocated ≡ 0) × (used ≡ 0)
Holds (some block) allocated used = (length block ≡ allocated) × (used ≤ allocated)

pub record IsValid (b : Buffer) : Type 0 where
  pub holds : Holds b.bytes b.allocated b.used
  pub in_range : b.allocated < size_mod

-- The bytes that have been put in.
abbrev pub stored : Option (List ℕ) → ℕ → List ℕ
stored none used = []
stored (some block) used = take used block

abbrev pub contents : Buffer → List ℕ
contents b = stored b.bytes b.used

pub length-take : (n : ℕ) (xs : List ℕ) → n ≤ length xs → length (take n xs) ≡ n
length-take zero xs h = refl
length-take (suc n) [] h = absurd (omega arith)
length-take (suc n) (x ∷ xs) h = ap suc (length-take n xs (omega arith))

pub length-drop : (n : ℕ) (xs : List ℕ) → length (drop n xs) ≡ length xs - n
length-drop zero xs = omega arith
length-drop (suc n) [] = omega arith
length-drop (suc n) (x ∷ xs) = omega (arith, length-drop n xs)

drop-nil : (n : ℕ) → drop {A = ℕ} n [] ≡ []
drop-nil zero = refl
drop-nil (suc n) = refl

pub take_all : (n : ℕ) (xs : List ℕ) → length xs ≤ n → take n xs ≡ xs
take_all zero [] h = refl
take_all zero (x ∷ xs) h = absurd (omega arith)
take_all (suc n) [] h = refl
take_all (suc n) (x ∷ xs) h = ap (◌∷◌ x) (take_all n xs (omega arith))

-- What realloc returns has the size asked for, and begins with what fits of the old block.
pub length-carried :
    (n : ℕ) (old block : List ℕ)
    → length block ≡ n
    → length (take n old ++ drop (length old) block) ≡ n
length-carried zero old [] h = ap length (drop-nil (length old))
length-carried zero old (y ∷ block) h = absurd (omega arith)
length-carried (suc n) [] block h = h
length-carried (suc n) (x ∷ old) [] h = absurd (omega arith)
length-carried (suc n) (x ∷ old) (y ∷ block) h = ap suc (length-carried n old block (omega arith))

pub take-carried :
    (used n : ℕ) (old rest : List ℕ)
    → used ≤ n
    → used ≤ length old
    → take used (take n old ++ rest) ≡ take used old
take-carried zero n old rest h k = refl
take-carried (suc used) zero old rest h k = absurd (omega arith)
take-carried (suc used) (suc n) [] rest h k = absurd (omega arith)
take-carried (suc used) (suc n) (x ∷ old) rest h k =
    ap (◌∷◌ x) (take-carried used n old rest (omega arith) (omega arith))

-- memcpy into the block at an offset, with room for the bytes.
pub length-written :
    (block : List ℕ) (at : ℕ) (bytes : List ℕ)
    → at + length bytes ≤ length block
    → length (take at block ++ bytes ++ drop (at + length bytes) block) ≡ length block
length-written block at bytes h = omega (
  arith,
  length-append (take at block ++ bytes) (drop (at + length bytes) block),
  length-append (take at block) bytes,
  length-take at block (omega arith),
  length-drop (at + length bytes) block,
)

take-prefix : (n : ℕ) (xs ys : List ℕ) → n ≡ length xs → take n (xs ++ ys) ≡ xs
take-prefix n [] ys h = ap (λ k. take k ys) h
take-prefix zero (x ∷ xs) ys h = absurd (omega arith)
take-prefix (suc n) (x ∷ xs) ys h = ap (◌∷◌ x) (take-prefix n xs ys (omega arith))

pub take-written :
    (block : List ℕ) (at : ℕ) (bytes : List ℕ)
    → at + length bytes ≤ length block
    → take (at + length bytes) (take at block ++ bytes ++ drop (at + length bytes) block)
      ≡ take at block ++ bytes
take-written block at bytes h =
    take-prefix (at + length bytes) (take at block ++ bytes) (drop (at + length bytes) block)
      (omega (arith, length-take at block (omega arith), length-append (take at block) bytes))

-- An allocator that refuses nothing.
abbrev pub Ample : Allocator → Type 0
Ample m = (n : ℕ) → (block : List ℕ) × (m.malloc n ≡ some block)
