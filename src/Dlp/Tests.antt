-- ===== src/Dlp/Tests.antt =====
-- A device that takes every request and answers with the bytes of its state.
use pilot_link.Base.{
  ℕ, true, false, List, [], ◌∷◌, ◌++◌, none, some, ◌≡◌, refl, arith, length, take, drop, replicate,
}
use pilot_link.Base.Int.{pos}
use pilot_link.Buffer.{Buffer}
use pilot_link.Buffer.Blocks.{Ample, IsValid, contents}
use pilot_link.Buffer.Tests.{zeroed, small, small-IsValid}
use pilot_link.Macros.{get_byte, set_byte, set_short, set_long}
use pilot_link.Dlp.Run.{Socket}
use pilot_link.Dlp.Args.{
  DlpArg, DlpRequest, form, written_form, header_size, arg_len_sum, arg_header, encode_args,
  parse_args,
}
use pilot_link.Dlp.Exec.{
  DlpResponse, encode_request, whole_write, first_len, dlp_request_write, dlp_response_read,
  dlp_exec,
}
use pilot_link.Dlp.Databases.{
  code_only, when_positive, response_data, dlp_open_db, dlp_close_db, dlp_clean_up_database,
  dlp_reset_sync_flags, dlp_move_category,
}
use pilot_link.Dlp.Records.{
  Found, by_id, max_buffer_size, dlp_read_record_by_id, dlp_delete_record,
  dlp_read_next_modified_rec, modified_found,
}
use pilot_link.Dlp.Encoded.{length-encode_args, parse_args-encode_args}
use pilot_link.Dlp.Written.{one_arg, sent, dlp_request_write-wire}
use pilot_link.Dlp.Responses.{
  response_bytes, Sendable, Passed, dlp_response_read-response, dlp_exec-Passed,
}
use pilot_link.Dlp.Answered.{Exchange, outcome, dlp_exec-outcome}
use pilot_link.Dlp.Fetched.{InFields, record_response, dlp_read_record_by_id-record}
use pilot_link.Dlp.Commands.{Puts, requests-Puts, dlp_open_db-Puts}

abbrev palm : Socket (List ℕ)
palm = record {
  write = λ s bytes. (pos (length bytes), s);
  read = λ s n. (pos (length (take n s)), take n s, drop n s);
  flush = λ s. s;
  reset_errors = λ s. s;
  set_error = λ s code. s;
  set_palmos_error = λ s code. s;
  version = λ s. 0x0104;
  max_rec_size = λ s. 0xffff;
  cache_version = λ s. s;
  end_connection = λ s. s;
  known = λ s. true;
}

zeroed-Ample : Ample zeroed
zeroed-Ample n = (replicate n 0, refl)

abbrev handle_arg : DlpArg
handle_arg = record { id = 0x20; data_ = 7 ∷ [] }

-- The next modified record, of the database with the handle 7.
abbrev next_modified : DlpRequest
next_modified = record { cmd = 0x1f; argv = handle_arg ∷ [] }

length-encode_args_example : length (encode_args (handle_arg ∷ [])) ≡ arg_len_sum (handle_arg ∷ [])
length-encode_args_example = length-encode_args (handle_arg ∷ [])

parse_args-encode_args_example :
    parse_args zeroed false 1 (encode_args (handle_arg ∷ []) ++ (9 ∷ []))
    ≡ some (record { args = handle_arg ∷ []; error = none })
parse_args-encode_args_example =
    parse_args-encode_args zeroed false (handle_arg ∷ []) (9 ∷ []) zeroed-Ample
      ((omega arith, omega arith), tt)

dlp_request_write-wire_example :
    dlp_request_write zeroed palm next_modified []
    ≡ some (
      whole_write
          (length (encode_request next_modified))
          (sent palm [] (encode_request next_modified)).0,
      (sent palm [] (encode_request next_modified)).1,
    )
unfolding arg_len_sum header_size form
dlp_request_write-wire_example =
    dlp_request_write-wire zeroed palm zeroed-Ample next_modified [] (omega arith)

wire_test : encode_request next_modified ≡ 0x1f ∷ 1 ∷ 0x20 ∷ 1 ∷ 7 ∷ []
unfolding encode_request encode_args arg_header form written_form set_byte
wire_test = refl

-- Nothing is modified any more: the device's error 5.
abbrev not_found : DlpResponse
not_found = record { cmd = 0x1f; err = 5; argv = [] }

not_found-Sendable : Sendable true not_found
not_found-Sendable = record { cmd_bits = omega arith; err_bits = omega arith; args_fit = tt }

dlp_response_read-response_example :
    dlp_response_read zeroed palm (response_bytes not_found) ≡ some ((pos 0, some not_found), [])
unfolding first_len set_short encode_args
dlp_response_read-response_example =
    dlp_response_read-response zeroed palm zeroed-Ample not_found (response_bytes not_found) []
      not_found-Sendable refl

abbrev note : Found
note = record { content = 104 ∷ 105 ∷ []; rec_id = 70000; index = 300; attr = 0x40; category = 1 }

-- The handle of a database that was opened.
abbrev opened : DlpResponse
opened = record { cmd = 0x1f; err = 0; argv = handle_arg ∷ [] }

opened-Sendable : Sendable true opened
opened-Sendable = record {
  cmd_bits = omega arith;
  err_bits = omega arith;
  args_fit = ((omega arith, omega arith), tt);
}

opened-Exchange : Exchange zeroed palm zeroed-Ample next_modified opened (response_bytes opened) []
unfolding encode_request encode_args arg_len_sum header_size arg_header form written_form set_byte
    set_short
opened-Exchange = record {
  middle = response_bytes opened;
  small = omega arith;
  wrote = refl;
  came = refl;
  first_fits = omega arith;
  sendable = opened-Sendable;
}

dlp_exec-outcome_example :
    dlp_exec zeroed palm next_modified (response_bytes opened)
    ≡ some (outcome zeroed palm zeroed-Ample true opened [])
dlp_exec-outcome_example =
    dlp_exec-outcome zeroed palm zeroed-Ample next_modified opened (response_bytes opened) []
      opened-Exchange refl

answered :
    dlp_exec zeroed palm next_modified (response_bytes opened) ≡ some ((pos 1, some opened), [])
unfolding first_len
answered =
    dlp_exec-outcome zeroed palm zeroed-Ample next_modified opened (response_bytes opened) []
      opened-Exchange refl

dlp_exec-Passed_example : Passed next_modified (some opened)
unfolding arg_len_sum header_size form
dlp_exec-Passed_example =
    dlp_exec-Passed zeroed palm zeroed-Ample next_modified (response_bytes opened) [] 1
      (some opened) (omega arith) answered

abbrev asked : DlpRequest
asked = one_arg 0x20 0x20 (by_id zeroed palm 7 70000 0 65435)

note-Sendable : Sendable true (record_response note)
unfolding set_long set_short
note-Sendable = record {
  cmd_bits = omega arith;
  err_bits = omega arith;
  args_fit = ((omega arith, omega arith), tt);
}

note-Exchange :
    Exchange zeroed palm zeroed-Ample asked
      (record_response note)
      (response_bytes (record_response note))
      []
unfolding by_id encode_request encode_args arg_len_sum header_size arg_header form written_form
    set_byte set_short set_long
note-Exchange = record {
  middle = response_bytes (record_response note);
  small = omega arith;
  wrote = refl;
  came = refl;
  first_fits = omega arith;
  sendable = note-Sendable;
}

note-InFields : InFields note
note-InFields = record {
  rec_id_bits = omega arith;
  index_bits = omega arith;
  attr_bits = omega arith;
  category_bits = omega arith;
}

dlp_read_record_by_id-record_example :
    (b' : Buffer) × (dlp_read_record_by_id zeroed palm 7 70000
        (some small)
        (response_bytes (record_response note))
      ≡ some ((pos 2, some note, some b'), []))
    × IsValid b'
    × (contents b' ≡ 104 ∷ 105 ∷ [])
unfolding max_buffer_size by_id set_byte set_long set_short
dlp_read_record_by_id-record_example =
    dlp_read_record_by_id-record zeroed palm zeroed-Ample 7 70000 small note
      (response_bytes (record_response note)) [] small-IsValid note-InFields (omega arith)
      (omega arith) note-Exchange

requests-Puts_example :
    Puts zeroed palm zeroed-Ample (dlp_close_db zeroed palm 7) 0x19 (7 ∷ []) code_only []
    × Puts zeroed palm zeroed-Ample (dlp_clean_up_database zeroed palm 7) 0x26 (7 ∷ []) code_only []
    × Puts zeroed palm zeroed-Ample (dlp_reset_sync_flags zeroed palm 7) 0x27 (7 ∷ []) code_only []
    × Puts zeroed palm zeroed-Ample
        (dlp_delete_record zeroed palm 7 false 70000)
        0x22
        (7 ∷ 0 ∷ 0 ∷ 1 ∷ 17 ∷ 112 ∷ [])
        code_only
        []
    × Puts zeroed palm zeroed-Ample
        (dlp_move_category zeroed palm 7 2 1)
        0x2c
        (7 ∷ 2 ∷ 1 ∷ 0 ∷ [])
        code_only
        []
    × Puts zeroed palm zeroed-Ample
        (dlp_read_next_modified_rec zeroed palm 7 (some small))
        0x1f
        (7 ∷ [])
        (modified_found zeroed palm (some small))
        []
requests-Puts_example = requests-Puts zeroed palm zeroed-Ample 7 70000 2 1 false (some small) []

dlp_open_db-Puts_example :
    Puts zeroed palm zeroed-Ample
      (dlp_open_db zeroed palm 0 0xc0 (65 ∷ 66 ∷ []))
      0x17
      (0 ∷ 0xc0 ∷ 65 ∷ 66 ∷ 0 ∷ [])
      (when_positive (λ res. get_byte (response_data res.argv 0 0)))
      []
dlp_open_db-Puts_example =
    dlp_open_db-Puts zeroed palm zeroed-Ample 0 0xc0 (65 ∷ 66 ∷ []) [] (omega arith)
