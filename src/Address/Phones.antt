-- ===== src/Address/Phones.antt =====
-- libpisock/address.c: numbers of four bits, joined into one.
use pilot_link.Base.{ℕ, zero, suc, ◌+◌, ◌*◌, ◌/◌, ◌^◌, ◌<◌, ◌≡◌, refl, ap, ◌∙◌, arith}
use pilot_link.ToDo.{bit_or}
use pilot_link.ToDo.Dates.{bit_or-doubled}

bit_or_comm : (bits a b : ℕ) → bit_or bits a b ≡ bit_or bits b a
unfolding bit_or
bit_or_comm zero a b = refl
bit_or_comm (suc bits) a b = let e = bit_or_comm bits (a / 2) (b / 2) in rw e (ground arith)

pub or_4 : (acc n : ℕ) → acc < 2 ^ 4 → n < 16 → bit_or 32 acc (n * 2 ^ 4) ≡ acc + n * 2 ^ 4
or_4 acc n h l =
    bit_or_comm 32 acc (n * 2 ^ 4)
    ∙ ap (λ k. bit_or 32 k acc) (omega arith)
    ∙ bit_or-doubled 4 28 n acc h (omega arith)
    ∙ omega arith

pub or_8 : (acc n : ℕ) → acc < 2 ^ 8 → n < 16 → bit_or 32 acc (n * 2 ^ 8) ≡ acc + n * 2 ^ 8
or_8 acc n h l =
    bit_or_comm 32 acc (n * 2 ^ 8)
    ∙ ap (λ k. bit_or 32 k acc) (omega arith)
    ∙ bit_or-doubled 8 24 n acc h (omega arith)
    ∙ omega arith

pub or_12 : (acc n : ℕ) → acc < 2 ^ 12 → n < 16 → bit_or 32 acc (n * 2 ^ 12) ≡ acc + n * 2 ^ 12
or_12 acc n h l =
    bit_or_comm 32 acc (n * 2 ^ 12)
    ∙ ap (λ k. bit_or 32 k acc) (omega arith)
    ∙ bit_or-doubled 12 20 n acc h (omega arith)
    ∙ omega arith

pub or_16 : (acc n : ℕ) → acc < 2 ^ 16 → n < 16 → bit_or 32 acc (n * 2 ^ 16) ≡ acc + n * 2 ^ 16
or_16 acc n h l =
    bit_or_comm 32 acc (n * 2 ^ 16)
    ∙ ap (λ k. bit_or 32 k acc) (omega arith)
    ∙ bit_or-doubled 16 16 n acc h (omega arith)
    ∙ omega arith

pub or_20 : (acc n : ℕ) → acc < 2 ^ 20 → n < 16 → bit_or 32 acc (n * 2 ^ 20) ≡ acc + n * 2 ^ 20
or_20 acc n h l =
    bit_or_comm 32 acc (n * 2 ^ 20)
    ∙ ap (λ k. bit_or 32 k acc) (omega arith)
    ∙ bit_or-doubled 20 12 n acc h (omega arith)
    ∙ omega arith
