-- ===== src/Dlp/Commands.antt =====
-- The bytes of the requests on open databases.
use pilot_link.Buffer.Blocks.{Ample}
use pilot_link.Base.{
  ℕ, ◌+◌, ◌/◌, ◌%◌, ◌^◌, ◌<◌, Bool, true, false, List, [], ◌∷◌, ◌++◌, Option, ◌≡◌, ap, ◌∙◌, arith,
  length, length-append, if◌then◌else◌,
}
use mathlib.Core.List.{append-nil}
use pilot_link.Buffer.{Allocator, Buffer}
use pilot_link.Macros.{get_byte, set_byte, set_long}
use pilot_link.Dlp.Run.{Socket, Run, ◌>>=◌, and_then}
use pilot_link.Dlp.Args.{
  tiny, form, written_form, arg_header, header_size, encode_args, arg_len_sum,
}
use pilot_link.Dlp.Exec.{Answer, encode_request, whole_write, respond, request}
use pilot_link.Dlp.Written.{sent, one_arg, request-wire}
use pilot_link.Dlp.Databases.{
  code_only, dlp_open_db, dlp_close_db, dlp_clean_up_database, dlp_reset_sync_flags,
  dlp_move_category, when_positive, string_bytes, response_data,
}
use pilot_link.Dlp.Records.{dlp_delete_record, dlp_read_next_modified_rec, modified_found}

-- A request's bytes: the command, one argument, its id, its length and its data.
abbrev pub tiny_wire : (cmd : ℕ) → List ℕ → List ℕ
tiny_wire cmd bytes = (cmd % 256) ∷ 1 ∷ 0x20 ∷ length bytes ∷ bytes

form-tiny : (len : ℕ) → len < 0xff → form 0x20 len ≡ tiny
unfolding form
form-tiny len h = ground arith

written_form-tiny : (len : ℕ) → len < 0xff → written_form 0x20 len ≡ tiny
unfolding written_form
written_form-tiny len h = ground arith

encode_request-tiny :
    (cmd : ℕ) (bytes : List ℕ)
    → length bytes < 0xff
    → encode_request (one_arg cmd 0x20 bytes) ≡ tiny_wire cmd bytes
unfolding encode_request encode_args arg_header set_byte
encode_request-tiny cmd bytes h =
    rw (written_form-tiny (length bytes) h, append-nil bytes)
      (ap (λ n. (cmd % 256) ∷ 1 ∷ 0x20 ∷ n ∷ bytes) (omega arith))

small-tiny :
    (cmd : ℕ) (bytes : List ℕ)
    → length bytes < 0xff
    → arg_len_sum (one_arg cmd 0x20 bytes).argv + 2 < 2 ^ 31
unfolding arg_len_sum header_size
small-tiny cmd bytes h = rw (form-tiny (length bytes) h) (omega arith)

module _ {S : Type 0} (m : Allocator) (sd : Socket S) (k : Ample m) where
  -- A function flushes the input, hands these bytes to pi_write, and goes on with the response.
  abbrev pub Puts : {A : Type 0} → Run S A → (cmd : ℕ) → List ℕ → (Answer → Run S A) → S → Type 0
  Puts run cmd bytes go s =
      run s
      ≡ and_then
          (respond m sd (one_arg cmd 0x20 bytes)
            (whole_write (length (tiny_wire cmd bytes))
              (sent sd (sd.reset_errors s) (tiny_wire cmd bytes)).0)
            (sent sd (sd.reset_errors s) (tiny_wire cmd bytes)).1)
          go

  request-Puts :
      {A : Type 0} (cmd : ℕ) (bytes : List ℕ) (go : Answer → Run S A) (s : S)
      → length bytes < 0xff
      → Puts (request m sd cmd 0x20 (length bytes ∷ []) bytes >>= go) cmd bytes go s
  unfolding ◌>>=◌
  request-Puts cmd bytes go s h =
      ap (λ o. and_then o go)
        (request-wire m sd k cmd 0x20 bytes s (small-tiny cmd bytes h)
          ∙ ap
              (λ wire.
                respond m sd (one_arg cmd 0x20 bytes)
                  (whole_write (length wire) (sent sd (sd.reset_errors s) wire).0)
                  (sent sd (sd.reset_errors s) wire).1)
              (encode_request-tiny cmd bytes h))

  abbrev pub big_endian : ℕ → List ℕ
  big_endian n = (n / 2 ^ 24 % 256) ∷ (n / 2 ^ 16 % 256) ∷ (n / 2 ^ 8 % 256) ∷ (n % 256) ∷ []

  delete-Puts :
      (handle rec_id : ℕ) (all : Bool) (s : S)
      → Puts
          (dlp_delete_record m sd handle all rec_id)
          0x22
          ((handle % 256) ∷ (if all then 0x80 else 0) ∷ big_endian rec_id)
          code_only
          s
  unfolding dlp_delete_record set_byte set_long
  delete-Puts handle rec_id true s =
      request-Puts 0x22 ((handle % 256) ∷ 0x80 ∷ big_endian rec_id) code_only s (omega arith)
  delete-Puts handle rec_id false s =
      request-Puts 0x22 ((handle % 256) ∷ 0 ∷ big_endian rec_id) code_only s (omega arith)

  -- The bytes that the requests on open databases hand to pi_write, after a flush of the input and
  -- before the response is read: those of dlp_CloseDB, dlp_CleanUpDatabase, dlp_ResetSyncFlags,
  -- dlp_DeleteRecord, dlp_MoveCategory and dlp_ReadNextModifiedRec for any arguments; where the
  -- allocator refuses nothing.
  pub requests-Puts :
      (handle rec_id from_cat to_cat : ℕ) (all : Bool) (buffer : Option Buffer) (s : S)
      → Puts (dlp_close_db m sd handle) 0x19 ((handle % 256) ∷ []) code_only s
        × Puts (dlp_clean_up_database m sd handle) 0x26 ((handle % 256) ∷ []) code_only s
        × Puts (dlp_reset_sync_flags m sd handle) 0x27 ((handle % 256) ∷ []) code_only s
        × Puts
            (dlp_delete_record m sd handle all rec_id)
            0x22
            ((handle % 256) ∷ (if all then 0x80 else 0) ∷ big_endian rec_id)
            code_only
            s
        × Puts
            (dlp_move_category m sd handle from_cat to_cat)
            0x2c
            ((handle % 256) ∷ (from_cat % 256) ∷ (to_cat % 256) ∷ 0 ∷ [])
            code_only
            s
        × Puts
            (dlp_read_next_modified_rec m sd handle buffer)
            0x1f
            ((handle % 256) ∷ [])
            (modified_found m sd buffer)
            s
  unfolding dlp_close_db dlp_clean_up_database dlp_reset_sync_flags dlp_delete_record
      dlp_move_category dlp_read_next_modified_rec set_byte set_long
  requests-Puts handle rec_id from_cat to_cat all buffer s = (
    request-Puts 0x19 ((handle % 256) ∷ []) code_only s (omega arith),
    request-Puts 0x26 ((handle % 256) ∷ []) code_only s (omega arith),
    request-Puts 0x27 ((handle % 256) ∷ []) code_only s (omega arith),
    delete-Puts handle rec_id all s,
    request-Puts 0x2c ((handle % 256) ∷ (from_cat % 256) ∷ (to_cat % 256) ∷ 0 ∷ []) code_only s
        (omega arith),
    request-Puts 0x1f ((handle % 256) ∷ []) (modified_found m sd buffer) s (omega arith),
  )

  open-size :
      (card mode : ℕ) (name : List ℕ)
      → 2 + length name + 1 ≡ length (card ∷ mode ∷ (name ++ (0 ∷ [])))
  open-size card mode name = omega (arith, length-append name (0 ∷ []))

  open-short :
      (card mode : ℕ) (name : List ℕ)
      → length name < 252
      → length (card ∷ mode ∷ (name ++ (0 ∷ []))) < 0xff
  open-short card mode name h = omega (arith, length-append name (0 ∷ []))

  -- dlp_OpenDB hands pi_write the card, the mode and the database's name with its terminator, for a
  -- name of fewer than 252 bytes, after a flush of the input and before the response, whose first
  -- byte it returns, is read; where the allocator refuses nothing.
  pub dlp_open_db-Puts :
      (card_no mode : ℕ) (name : List ℕ) (s : S)
      → length name < 252
      → Puts
          (dlp_open_db m sd card_no mode name)
          0x17
          ((card_no % 256) ∷ (mode % 256) ∷ (name ++ (0 ∷ [])))
          (when_positive (λ res. get_byte (response_data res.argv 0 0)))
          s
  unfolding dlp_open_db set_byte string_bytes
  dlp_open_db-Puts card_no mode name s h = rw (open-size (card_no % 256) (mode % 256) name) (
      request-Puts 0x17 ((card_no % 256) ∷ (mode % 256) ∷ (name ++ (0 ∷ [])))
        (when_positive (λ res. get_byte (response_data res.argv 0 0))) s
        (open-short (card_no % 256) (mode % 256) name h))
