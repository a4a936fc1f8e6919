-- ===== src/Slp/Pending.antt =====
-- What the layer below SLP delivers, and the loop that reads from it.
use pilot_link.Base.{
  ℕ, zero, suc, ◌+◌, ◌-◌, ◌≤◌, ◌<◌, true, false, List, [], ◌∷◌, ◌++◌, ◌≡◌, refl, ap, ◌∙◌, arith,
  length, take, drop, leb, Bool-cases, inl, inr,
}
use mathlib.Core.List.{append_assoc}
use pilot_link.Base.Int.{pos}
use pilot_link.Buffer.{Allocator}
use pilot_link.Buffer.Blocks.{length-drop}
use pilot_link.Slp.{Link}
use pilot_link.Slp.Receive.{read_all, Got, filled, answered, go_on}

-- Of the `pending` bytes, a read that asks for no more than there are takes some from the front: at
-- least one where any are asked for, and never more than asked for.
pub record Delivers {S : Type 0} (next : Link S) (pending : S → List ℕ) : Type 0 where
  pub got : S → ℕ → ℕ
  pub some_of : (s : S) (n : ℕ) → 0 < n → n ≤ length (pending s) → 0 < got s n
  pub at_most : (s : S) (n : ℕ) → got s n ≤ n
  pub code : (s : S) (n : ℕ) → n ≤ length (pending s) → (next.read s n).0 ≡ pos (got s n)
  pub bytes :
      (s : S) (n : ℕ) → n ≤ length (pending s) → (next.read s n).1 ≡ take (got s n) (pending s)
  pub rest :
      (s : S) (n : ℕ)
      → n ≤ length (pending s)
      → pending ((next.read s n).2) ≡ drop (got s n) (pending s)

take-nil : (n : ℕ) → take {A = ℕ} n [] ≡ []
take-nil zero = refl
take-nil (suc n) = refl

drop-nil : (n : ℕ) → drop {A = ℕ} n [] ≡ []
drop-nil zero = refl
drop-nil (suc n) = refl

pub take-take_rest :
    (k j n : ℕ) (xs : List ℕ) → k + j ≡ n → take k xs ++ take j (drop k xs) ≡ take n xs
take-take_rest zero j n xs h = ap (λ i. take i xs) (omega arith)
take-take_rest (suc k) j zero xs h = absurd (omega arith)
take-take_rest (suc k) j (suc n) [] h = take-nil j
take-take_rest (suc k) j (suc n) (x ∷ xs) h = ap (◌∷◌ x) (take-take_rest k j n xs (omega arith))

drop-drop_rest : (k j n : ℕ) (xs : List ℕ) → k + j ≡ n → drop j (drop k xs) ≡ drop n xs
drop-drop_rest zero j n xs h = ap (λ i. drop i xs) (omega arith)
drop-drop_rest (suc k) j zero xs h = absurd (omega arith)
drop-drop_rest (suc k) j (suc n) [] h = drop-nil j
drop-drop_rest (suc k) j (suc n) (x ∷ xs) h = drop-drop_rest k j n xs (omega arith)

module _ {S : Type 0} (m : Allocator) (next : Link S) {pending : S → List ℕ}
    (d : Delivers next pending) where
  -- The loop ends with just the bytes asked for.
  abbrev pub Filled : List ℕ → S → ℕ → Got S → Type 0
  Filled slp_buf s n got =
      (s' : S) × (got ≡ filled (slp_buf ++ take n (pending s)) s')
      × (pending s' ≡ drop n (pending s))

  read_whole :
      (fuel : ℕ) (s : S) (slp_buf : List ℕ) (n : ℕ)
      → n ≤ length (pending s)
      → leb n (d.got s n) ≡ true
      → read_all m next (suc fuel) s slp_buf n
        ≡ filled (slp_buf ++ take (d.got s n) (pending s)) (next.read s n).2
  unfolding read_all answered go_on
  read_whole fuel s slp_buf n h e = rw (d.code s n h, e, d.bytes s n h) refl

  read_part :
      (fuel : ℕ) (s : S) (slp_buf : List ℕ) (n : ℕ)
      → n ≤ length (pending s)
      → leb n (d.got s n) ≡ false
      → read_all m next (suc fuel) s slp_buf n
        ≡ read_all m next fuel
            (next.read s n).2
            (slp_buf ++ take (d.got s n) (pending s))
            (n - d.got s n)
  unfolding read_all answered go_on
  read_part fuel s slp_buf n h e = rw (d.code s n h, e, d.bytes s n h) refl

  left_over :
      (s : S) (n : ℕ) → n ≤ length (pending s) → n - d.got s n ≤ length (pending (next.read s n).2)
  left_over s n h = rw (d.rest s n h) (omega (arith, length-drop (d.got s n) (pending s)))

  joined :
      (s : S) (slp_buf : List ℕ) (n : ℕ)
      → n ≤ length (pending s)
      → slp_buf ++ take (d.got s n) (pending s) ++ take (n - d.got s n) (pending (next.read s n).2)
        ≡ slp_buf ++ take n (pending s)
  joined s slp_buf n h =
      append_assoc slp_buf (take (d.got s n) (pending s))
        (take (n - d.got s n) (pending (next.read s n).2))
      ∙ ap (λ xs. slp_buf ++ (take (d.got s n) (pending s) ++ take (n - d.got s n) xs))
          (d.rest s n h)
      ∙ ap (λ xs. slp_buf ++ xs)
          (take-take_rest (d.got s n) (n - d.got s n) n (pending s) (omega (arith, d.at_most s n)))

  skipped :
      (s : S) (n : ℕ)
      → n ≤ length (pending s)
      → drop (n - d.got s n) (pending (next.read s n).2) ≡ drop n (pending s)
  skipped s n h =
      ap (drop (n - d.got s n)) (d.rest s n h)
      ∙ drop-drop_rest (d.got s n) (n - d.got s n) n (pending s) (omega (arith, d.at_most s n))

  pub read_all_lem :
      (fuel : ℕ) (s : S) (slp_buf : List ℕ) (n : ℕ)
      → n < fuel
      → n ≤ length (pending s)
      → Filled slp_buf s n (read_all m next fuel s slp_buf n)
  read_all_lem zero s slp_buf n h k = absurd (omega arith)
  read_all_lem (suc fuel) s slp_buf n h k = elim (Bool-cases (leb n (d.got s n))) [
    | inl e ↦
        let same : d.got s n ≡ n = grind (arith, d.at_most s n) in
        (
          (next.read s n).2,
          read_whole fuel s slp_buf n k e
              ∙ ap (λ j. filled (slp_buf ++ take j (pending s)) (next.read s n).2) same,
          d.rest s n k ∙ ap (λ j. drop j (pending s)) same,
        )
    | inr e ↦
        let fewer : d.got s n < n = grind arith in
        let (s', e', r) =
          read_all_lem fuel (next.read s n).2 (slp_buf ++ take (d.got s n) (pending s))
            (n - d.got s n) (grind (arith, d.some_of s n)) (left_over s n k) in
        (
          s',
          read_part fuel s slp_buf n k e ∙ e' ∙ ap (λ xs. filled xs s') (joined s slp_buf n k),
          r ∙ skipped s n k,
        )
  ]
