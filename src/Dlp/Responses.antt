-- ===== src/Dlp/Responses.antt =====
-- Responses of the device, read and checked.
use pilot_link.Buffer.Blocks.{Ample}
use pilot_link.Base.{
  ℕ, zero, suc, ◌+◌, ◌*◌, ◌%◌, ◌^◌, ◌≤◌, ◌<◌, Bool, true, false, List, [], ◌∷◌, ◌++◌, Option, none,
  some, ◌≡◌, refl, sym, ap, ◌∙◌, arith, length, drop, leb, ltb, ltb-false, All, Bool-cases, inl,
  inr,
}
use mathlib.Core.List.{append-nil}
use pilot_link.Base.Int.{ℤ, pos, negsuc}
use pilot_link.Buffer.{Allocator, pi_buffer_new}
use pilot_link.Macros.{get_byte, get_short, set_short}
use pilot_link.Dlp.Run.{Socket, ◌>>=◌, pure, change, ask, checked, and_then}
use pilot_link.Dlp.Args.{
  DlpArg, DlpRequest, arg_len_sum, encode_args, parse_args, pointers, header_size, form, Form, tiny,
  short, long,
}
use pilot_link.Dlp.Encoded.{Fits, parse_args-encode_args}
use pilot_link.Dlp.Exec.{
  Answer, DlpResponse, encode_request, whole_write, below, respond, dlp_exec, dlp_response_new,
  finish_response, first_len, read_args, after_read, pi_read, read_into, dlp_response_read,
  cmd_matches, check_response, int_code, pi_set_error,
}
use pilot_link.Dlp.Written.{sent, dlp_exec-wire, length-encode_request}

-- What a device sends.
abbrev pub response_bytes : DlpResponse → List ℕ
response_bytes res = (res.cmd + 128) ∷ length res.argv ∷ (set_short res.err ++ encode_args res.argv)

-- A response that the encoding has room for.
pub record Sendable (large : Bool) (res : DlpResponse) : Type 0 where
  pub cmd_bits : res.cmd < 128
  pub err_bits : res.err < 2 ^ 16
  pub args_fit : All (λ arg. Fits large arg.id (length arg.data_)) res.argv

-- A response without an error, to the request or from a device that is known to answer so.
abbrev pub Passed : DlpRequest → Option DlpResponse → Type 0
Passed req none = ⊥
Passed req (some res) = (res.err ≡ 0) × (cmd_matches req.cmd res.cmd ≡ true)

header_size-pos : (f : Form) → 0 < header_size f
unfolding header_size
header_size-pos tiny = omega arith
header_size-pos short = omega arith
header_size-pos long = omega arith

pub args-le-sum : (args : List DlpArg) → length args ≤ arg_len_sum args
unfolding arg_len_sum
args-le-sum [] = omega arith
args-le-sum (arg ∷ args) =
    omega (arith, args-le-sum args, header_size-pos (form arg.id (length arg.data_)))

module _ {S : Type 0} (m : Allocator) (sd : Socket S) (k : Ample m) where
  read_buffer :
      (block : List ℕ) × (pi_buffer_new m 65535
        ≡ some (record { bytes = some block; allocated = 65535; used = 0 }))
  unfolding pi_buffer_new
  read_buffer = let (block, e) = k 65535 in (block, rw e refl)

  new_response : (argc : ℕ) → (array : List ℕ) × (dlp_response_new m argc ≡ some array)
  unfolding dlp_response_new pointers
  new_response zero = let (struct, e) = k 24 in ([], rw e refl)
  new_response (suc argc) =
      let (struct, e) = k 24 in let (array, e') = k (8 * suc argc) in (array, rw (e, e') refl)

  parsed_whole :
      (large : Bool) (res : DlpResponse)
      → Sendable large res
      → parse_args m large (length res.argv) (encode_args res.argv)
        ≡ some (record { args = res.argv; error = none })
  parsed_whole large res v =
      ap (parse_args m large (length res.argv)) (sym (append-nil (encode_args res.argv)))
      ∙ parse_args-encode_args m large res.argv [] k v.args_fit

  error_field :
      (large : Bool) (res : DlpResponse)
      → Sendable large res
      → get_short (drop 2 (response_bytes res)) ≡ some res.err
  unfolding get_short set_short
  error_field large res v = ap some (omega (arith, v.err_bits))

  args_field : (res : DlpResponse) → drop 4 (response_bytes res) ≡ encode_args res.argv
  unfolding set_short
  args_field res = refl

  read_args-response :
      (res : DlpResponse) (array : List ℕ) (s : S)
      → Sendable (leb 0x0104 (sd.version (sd.set_palmos_error s res.err))) res
      → read_args m sd res.cmd (length res.argv) (response_bytes res) (some array) s
        ≡ some ((first_len res.argv, some res), sd.set_palmos_error s res.err)
  unfolding read_args finish_response ◌>>=◌ checked change ask pure
  read_args-response res array s v =
      let large = leb 0x0104 (sd.version (sd.set_palmos_error s res.err)) in
      rw (error_field large res v, args_field res, parsed_whole large res v) refl

  long_enough : (res : DlpResponse) → ltb (length (response_bytes res)) 4 ≡ false
  unfolding set_short
  long_enough res = ltb-false (length (response_bytes res)) 4 (omega arith)

  after_read-response :
      (res : DlpResponse) (s : S)
      → Sendable (leb 0x0104 (sd.version (sd.set_palmos_error s res.err))) res
      → after_read m sd (pos (length (response_bytes res))) (response_bytes res) s
        ≡ some ((first_len res.argv, some res), sd.set_palmos_error s res.err)
  unfolding after_read get_byte ◌>>=◌ checked
  after_read-response res s v =
      let (array, e) = new_response (length res.argv) in
      let bits : (res.cmd + 128) % 128 ≡ res.cmd = omega (arith, v.cmd_bits) in
      rw (long_enough res, bits, e) (read_args-response res array s v)

  -- Where the allocator refuses nothing, a response whose arguments the encoding has room for, and
  -- that arrives whole, is what dlp_response_read yields, with the length of its first argument; its
  -- error is noted.
  pub dlp_response_read-response :
      (res : DlpResponse) (s s' : S)
      → Sendable (leb 0x0104 (sd.version (sd.set_palmos_error s' res.err))) res
      → sd.read s 0xffff ≡ (pos (length (response_bytes res)), response_bytes res, s')
      → dlp_response_read m sd s
        ≡ some ((first_len res.argv, some res), sd.set_palmos_error s' res.err)
  unfolding dlp_response_read read_into pi_read ◌>>=◌
  dlp_response_read-response res s s' v e =
      let (block, e') = read_buffer in rw (e', e) (after_read-response res s' v)

  check_response-Passed :
      (req : DlpRequest) (a : Answer) (s s' : S) (n : ℕ) (r : Option DlpResponse)
      → check_response m sd req a s ≡ some ((pos n, r), s')
      → Passed req r
  unfolding check_response checked pure ◌>>=◌ change pi_set_error
  check_response-Passed req (negsuc i, res) s s' n r e = ground arith
  check_response-Passed req (pos i, none) s s' n r e = ground arith
  check_response-Passed req (pos i, some res) s s' n r e = ground arith

  checked-Passed :
      (req : DlpRequest) (o : Option (Answer × S)) (s' : S) (n : ℕ) (r : Option DlpResponse)
      → and_then o (λ answer. check_response m sd req (int_code answer)) ≡ some ((pos n, r), s')
      → Passed req r
  checked-Passed req none s' n r e = ground arith
  checked-Passed req (some (a, s)) s' n r e = check_response-Passed req (int_code a) s s' n r e

  respond-Passed :
      (req : DlpRequest) (written : ℤ) (s s' : S) (n : ℕ) (r : Option DlpResponse)
      → below written (length req.argv) ≡ false
      → respond m sd req written s ≡ some ((pos n, r), s')
      → Passed req r
  unfolding respond ◌>>=◌
  respond-Passed req written s s' n r h e =
      checked-Passed req (dlp_response_read m sd s) s' n r (rw h at e)

  respond-short :
      (req : DlpRequest) (len : ℕ) (c : ℤ) (s s' : S) (n : ℕ) (r : Option DlpResponse)
      → length req.argv ≤ len
      → below (whole_write len c) (length req.argv) ≡ true
      → respond m sd req (whole_write len c) s ≡ some ((pos n, r), s')
      → ⊥
  unfolding respond below whole_write pure
  respond-short req len (pos i) s s' n r l h e = ground arith
  respond-short req len (negsuc i) s s' n r l h e = ground arith

  -- A code of dlp_exec that is not negative stands for a response without an error, to this request
  -- or from one of the devices that answer with another command's number, whatever the socket does;
  -- for arguments of less than 2^31 bytes, where the allocator refuses nothing.
  pub dlp_exec-Passed :
      (req : DlpRequest) (s s' : S) (n : ℕ) (r : Option DlpResponse)
      → arg_len_sum req.argv + 2 < 2 ^ 31
      → dlp_exec m sd req s ≡ some ((pos n, r), s')
      → Passed req r
  dlp_exec-Passed req s s' n r h e =
      let wire = encode_request req in
      let c = (sent sd s wire).0 in
      let s1 = (sent sd s wire).1 in
      let e' = sym (dlp_exec-wire m sd k req s h) ∙ e in
      let enough : length req.argv ≤ length wire =
        omega (arith, length-encode_request req, args-le-sum req.argv) in
      elim (Bool-cases (below (whole_write (length wire) c) (length req.argv))) [
        | inl b ↦ absurd (respond-short req (length wire) c s1 s' n r enough b e')
        | inr b ↦ respond-Passed req (whole_write (length wire) c) s1 s' n r b e'
      ]
