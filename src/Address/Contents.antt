-- ===== src/Address/Contents.antt =====
-- libpisock/address.c: which entries a packed record has, in the bits of a number.
use pilot_link.Base.{
  ℕ, suc, ◌+◌, ◌*◌, ◌/◌, ◌^◌, ◌<◌, List, [], ◌∷◌, Option, none, some, ◌≡◌, refl, sym, ap, ◌∙◌,
  arith, length, if◌then◌else◌, All,
}
use mathlib.Core.Path.{subst}
use native.Mathlib.Nat.{pow-succ', div-div-eq-div-mul}
use pilot_link.AppInfo.{pack_renamed}
use pilot_link.AppInfo.Bits.{IsFlag, digits, pack-digits, digits-lt}
use pilot_link.Memo.RoundTrip.{IsText}
use pilot_link.Address.{is_present, contents_of}

-- An entry as it comes back: the empty string is not packed.
abbrev pub kept_entry : Option (List ℕ) → Option (List ℕ)
kept_entry none = none
kept_entry (some []) = none
kept_entry (some (b ∷ text)) = some (b ∷ text)

abbrev pub kept_entries : List (Option (List ℕ)) → List (Option (List ℕ))
kept_entries [] = []
kept_entries (entry ∷ more) = kept_entry entry ∷ kept_entries more

-- A string holds no NUL.
abbrev pub IsString : Option (List ℕ) → Type 0
IsString none = Unit {0}
IsString (some text) = IsText text

abbrev pub flag_of : Option (List ℕ) → ℕ
flag_of entry = if is_present entry then 1 else 0

abbrev pub presences : List (Option (List ℕ)) → List ℕ
presences [] = []
presences (entry ∷ more) = flag_of entry ∷ presences more

contents_of-flags :
    (v : ℕ) (entries : List (Option (List ℕ)))
    → contents_of v entries ≡ pack_renamed v (presences entries)
unfolding contents_of pack_renamed
contents_of-flags v [] = refl
contents_of-flags v (none ∷ more) = ap (λ n. 0 + n) (contents_of-flags (suc v) more)
contents_of-flags v (some [] ∷ more) = ap (λ n. 0 + n) (contents_of-flags (suc v) more)
contents_of-flags v (some (b ∷ text) ∷ more) = ap (λ n. 2 ^ v + n) (contents_of-flags (suc v) more)

flag_of-lt : (entry : Option (List ℕ)) → flag_of entry < 2
flag_of-lt none = omega arith
flag_of-lt (some []) = omega arith
flag_of-lt (some (b ∷ text)) = omega arith

presences-flags : (entries : List (Option (List ℕ))) → All IsFlag (presences entries)
presences-flags [] = tt
presences-flags (entry ∷ more) = (flag_of-lt entry, presences-flags more)

length-presences : (entries : List (Option (List ℕ))) → length (presences entries) ≡ length entries
length-presences [] = refl
length-presences (entry ∷ more) = ap suc (length-presences more)

pub contents_of-digits :
    (entries : List (Option (List ℕ))) → contents_of 0 entries ≡ digits (presences entries)
contents_of-digits entries =
    contents_of-flags 0 entries
    ∙ pack-digits 0 (presences entries) (presences-flags entries)
    ∙ omega arith

pub contents_of-lt :
    (entries : List (Option (List ℕ))) → length entries ≡ 19 → contents_of 0 entries < 2 ^ 19
contents_of-lt entries l =
    let e : digits (presences entries) < 2 ^ 19 =
      subst (λ n. digits (presences entries) < 2 ^ n) (length-presences entries ∙ l)
        (digits-lt (presences entries) (presences-flags entries)) in
    omega (arith, contents_of-digits entries)

pub next_digits : (n v f d : ℕ) → f < 2 → n / 2 ^ v ≡ f + 2 * d → n / 2 ^ suc v ≡ d
next_digits n v f d h e =
    ap (λ p. n / p) (pow-succ' 2 v ∙ omega arith)
    ∙ sym (div-div-eq-div-mul n (2 ^ v) 2)
    ∙ ap (λ q. q / 2) e
    ∙ omega arith
