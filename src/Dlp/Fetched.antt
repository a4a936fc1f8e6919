-- ===== src/Dlp/Fetched.antt =====
-- A record of the device, fetched by its id.
use pilot_link.Base.{
  ℕ, ◌+◌, ◌*◌, ◌/◌, ◌%◌, ◌^◌, ◌==◌, ◌<◌, false, List, [], ◌∷◌, ◌++◌, some, ◌≡◌, refl, ap, ◌∙◌,
  arith, length,
}
use pilot_link.Base.Int.{pos}
use pilot_link.Buffer.{Allocator, Buffer, size_mod, pi_buffer_clear, extended}
use pilot_link.Buffer.Blocks.{Ample, IsValid, contents}
use pilot_link.Buffer.Append.{pi_buffer_append-Ample, pi_buffer_clear_lem}
use pilot_link.Macros.{get_byte, get_short, get_long, set_byte, set_short, set_long}
use pilot_link.Dlp.Run.{Socket, Run, ◌>>=◌, pure, ask, checked, and_then}
use pilot_link.Dlp.Exec.{Answer, DlpResponse, first_len}
use pilot_link.Dlp.Written.{one_arg}
use pilot_link.Dlp.Answered.{Exchange, request-outcome}
use pilot_link.Dlp.Databases.{response_data}
use pilot_link.Dlp.Records.{
  Found, found, append_to, cleared, first_part, read_on, max_buffer_size, by_id, asked_size,
  dlp_read_record_by_id, ask_again,
}

-- The numbers of a record fit in their fields.
pub record InFields (r : Found) : Type 0 where
  pub rec_id_bits : r.rec_id < 2 ^ 32
  pub index_bits : r.index < 2 ^ 16
  pub attr_bits : r.attr < 2 ^ 8
  pub category_bits : r.category < 2 ^ 8

-- The response of a device to a request for a record.
abbrev pub record_arg : Found → List ℕ
record_arg r = set_long r.rec_id ++ (set_short r.index ++ (0 ∷ 0 ∷ r.attr ∷ r.category ∷ r.content))

abbrev pub record_response : Found → DlpResponse
record_response r = record {
  cmd = 0x20;
  err = 0;
  argv = record { id = 0x20; data_ = record_arg r } ∷ [];
}

found-record : (r : Found) → InFields r → found false (record_response r) ≡ some r
unfolding found response_data set_long set_short get_long get_short get_byte
found-record r v =
    ap (λ n. some (record r { rec_id = n; index = r.index / 256 % 256 * 256 + r.index % 256 }))
      (omega (arith, v.rec_id_bits))
    ∙ ap (λ n. some (record r { index = n })) (omega (arith, v.index_bits))

pi_buffer_clear-used : (m : Allocator) (b : Buffer) → (pi_buffer_clear m b).used ≡ 0
unfolding pi_buffer_clear extended
pi_buffer_clear-used m b = ground arith

module _ {S : Type 0} (m : Allocator) (sd : Socket S) where
  refilled :
      (k : Ample m) (b : Buffer) (bytes : List ℕ) (s : S)
      → IsValid b
      → length bytes < size_mod
      → (b' : Buffer) × (append_to m sd (cleared m sd (some b)) bytes s ≡ some (some b', s))
        × IsValid b'
        × (contents b' ≡ bytes)
  unfolding append_to cleared ◌>>=◌ checked pure
  refilled k b bytes s v h =
      let (v', e) = pi_buffer_clear_lem m b v in
      let (b', e', v'', held) =
        pi_buffer_append-Ample m (pi_buffer_clear m b) bytes k v' (rw e (omega arith)) in
      (b', rw e' refl, v'', held ∙ ap (λ old. old ++ bytes) e)

  read_on-whole :
      (k : Ample m) (max : ℕ) (next : Run S Answer) (r : Found) (b : Buffer) (s : S)
      → IsValid b
      → length r.content < size_mod
      → length r.content < max
      → (b' : Buffer) × (read_on m sd false max next r (some b) s
          ≡ some ((pos (length r.content), some r, some b'), s))
        × IsValid b'
        × (contents b' ≡ r.content)
  unfolding read_on ◌>>=◌ pure
  read_on-whole k max next r b s v h l =
      let (b', e, v', held) = refilled k b r.content s v h in
      let short : (length r.content == max) ≡ false = ground arith in
      (b', rw (e, short) refl, v', held)

  by_id-length :
      (handle rec_id offset size : ℕ) → length (by_id m sd handle rec_id offset size) ≡ 10
  unfolding by_id set_byte set_long set_short
  by_id-length handle rec_id offset size = refl

  first_part-record :
      (max : ℕ) (next : Run S Answer) (r : Found) (b b' : Buffer) (s s' : S)
      → InFields r
      → read_on m sd false max next r (some b) s
        ≡ some ((pos (length r.content), some r, some b'), s')
      → first_part m sd false max next
          (some b)
          (first_len (record_response r).argv, some (record_response r))
          s
        ≡ some ((pos (length r.content), some r, some b'), s')
  unfolding first_part first_len set_long set_short ◌>>=◌ checked
  first_part-record max next r b b' s s' f e = rw (found-record r f) e

  -- Where the allocator refuses nothing, and the exchange of the request for a first part succeeds: a
  -- record of the device that is shorter than a first part can be and that answers
  -- dlp_ReadRecordById. Its fields are the outputs, its size is returned, and the caller's buffer,
  -- valid before and after, holds its bytes and nothing else.
  pub dlp_read_record_by_id-record :
      (k : Ample m) (handle rec_id : ℕ) (b : Buffer) (r : Found) (s s' : S)
      → IsValid b
      → InFields r
      → length r.content < size_mod
      → length r.content < max_buffer_size m sd s
      → Exchange m sd k
          (one_arg 0x20 0x20 (by_id m sd handle rec_id 0 (max_buffer_size m sd s)))
          (record_response r)
          (sd.reset_errors s)
          s'
      → (b' : Buffer) × (dlp_read_record_by_id m sd handle rec_id (some b) s
          ≡ some ((pos (length r.content), some r, some b'), sd.set_palmos_error s' 0))
        × IsValid b'
        × (contents b' ≡ r.content)
  unfolding dlp_read_record_by_id asked_size ◌>>=◌ ask by_id set_byte set_long set_short
  dlp_read_record_by_id-record k handle rec_id b r s s' v f h l x =
      let max = max_buffer_size m sd s in
      let bytes = by_id m sd handle rec_id 0 max in
      let again = ask_again m sd 0x20 0x20 (10 ∷ []) (by_id m sd handle rec_id max 100) in
      let (b', e, v', held) = read_on-whole k max again r b (sd.set_palmos_error s' 0) v h l in
      let answered = request-outcome m sd k 0x20 0x20 bytes (record_response r) s s' x refl in
      (
        b',
        ap (λ o. and_then o (first_part m sd false max again (some b))) answered
            ∙ first_part-record max again r b b' (sd.set_palmos_error s' 0)
                (sd.set_palmos_error s' 0) f e,
        v',
        held,
      )
