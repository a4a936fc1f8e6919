-- ===== src/Buffer/Tests.antt =====
-- A buffer of four bytes, two of them used, and an allocator that clears its blocks.
use pilot_link.Base.{
  Bool, true, [], ◌∷◌, some, ◌≡◌, refl, sym, ap, ◌∙◌, arith, length, replicate, length-replicate,
}
use mathlib.Core.Option.{some-injective}
use pilot_link.Buffer.{
  Buffer, Allocator, carry_over, copy_to, extended, put_in, grow, pi_buffer_expect,
  pi_buffer_append, pi_buffer_clear,
}
use pilot_link.Buffer.Blocks.{IsValid, Ample, contents}
use pilot_link.Buffer.Append.{longer, pi_buffer_append_lem, pi_buffer_clear_lem}

abbrev pub zeroed : Allocator
zeroed = record {
  malloc = λ n. some (replicate n 0);
  malloc_size =
      λ n block e. sym (ap length (some-injective (replicate n 0) block e)) ∙ length-replicate n 0;
}

abbrev pub small : Buffer
small = record { bytes = some (7 ∷ 8 ∷ 0 ∷ 0 ∷ []); allocated = 4; used = 2 }

pub small-IsValid : IsValid small
small-IsValid = record { holds = (refl, omega arith); in_range = omega arith }

pub zeroed-Ample : Ample zeroed
zeroed-Ample n = (replicate n 0, refl)

pi_buffer_append_lem_example :
    (ok : Bool) × (b' : Buffer) × (pi_buffer_append zeroed small (1 ∷ 2 ∷ 3 ∷ []) ≡ some (ok, b'))
    × IsValid b'
    × (contents b' ≡ longer ok (contents small) (1 ∷ 2 ∷ 3 ∷ []))
pi_buffer_append_lem_example =
    pi_buffer_append_lem zeroed small (1 ∷ 2 ∷ 3 ∷ []) small-IsValid (omega arith)

pi_buffer_clear_lem_example :
    IsValid (pi_buffer_clear zeroed small) × (contents (pi_buffer_clear zeroed small) ≡ [])
pi_buffer_clear_lem_example = pi_buffer_clear_lem zeroed small small-IsValid

grows :
    pi_buffer_append zeroed small (1 ∷ 2 ∷ 3 ∷ [])
    ≡ some (true, record { bytes = some (7 ∷ 8 ∷ 1 ∷ 2 ∷ 3 ∷ []); allocated = 5; used = 5 })
unfolding pi_buffer_append pi_buffer_expect extended grow carry_over put_in copy_to
grows = refl
