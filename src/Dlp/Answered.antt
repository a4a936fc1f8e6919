-- ===== src/Dlp/Answered.antt =====
-- A request that is written whole and answered by a whole response.
use pilot_link.Buffer.Blocks.{Ample}
use pilot_link.Base.{
  ℕ, ◌+◌, ◌^◌, ◌==◌, ◌≤◌, ◌<◌, Bool, true, false, List, [], ◌∷◌, some, ◌≡◌, refl, ap, ◌∙◌, arith,
  length, leb, if◌then◌else◌, Bool-cases, inl, inr,
}
use pilot_link.Base.Int.{ℤ, pos, int32}
use pilot_link.Buffer.{Allocator}
use pilot_link.Dlp.Run.{Socket, ◌>>=◌, pure, change, err_dlp_palmos}
use pilot_link.Dlp.Args.{DlpArg, DlpRequest, arg_len_sum}
use pilot_link.Dlp.Exec.{
  Answer, DlpResponse, encode_request, whole_write, below, respond, dlp_exec, first_len,
  cmd_matches, check_response, as_int, request, pi_set_error,
}
use pilot_link.Dlp.Written.{sent, one_arg, request-wire, dlp_exec-wire, length-encode_request}
use pilot_link.Dlp.Responses.{response_bytes, Sendable, args-le-sum, dlp_response_read-response}

module _ {S : Type 0} (m : Allocator) (sd : Socket S) (k : Ample m) where
  -- The length of the first argument fits in an `int`.
  abbrev pub FirstFits : List DlpArg → Type 0
  FirstFits [] = Unit {0}
  FirstFits (arg ∷ args) = length arg.data_ < 2 ^ 31

  first_len-int : (args : List DlpArg) → FirstFits args → as_int (first_len args) ≡ first_len args
  unfolding as_int first_len int32
  first_len-int [] h = refl
  first_len-int (arg ∷ args) h = ground arith

  -- The request's bytes are all written, and the response is what the next read yields. The lengths
  -- of the request and of the response's first argument fit in an `int`.
  pub record Exchange (req : DlpRequest) (res : DlpResponse) (s s' : S) : Type 0 where
    pub middle : S
    pub small : arg_len_sum req.argv + 2 < 2 ^ 31
    pub wrote : sent sd s (encode_request req) ≡ (pos (length (encode_request req)), middle)
    pub came : sd.read middle 0xffff ≡ (pos (length (response_bytes res)), response_bytes res, s')
    pub first_fits : FirstFits res.argv
    pub sendable : Sendable (leb 0x0104 (sd.version (sd.set_palmos_error s' res.err))) res

  whole : (len argc : ℕ) → argc ≤ len → below (whole_write len (pos len)) argc ≡ false
  unfolding below whole_write
  whole len argc h = ground arith

  respond-Exchange :
      (req : DlpRequest) (res : DlpResponse) (s s' : S) (len : ℕ)
      → length req.argv ≤ len
      → FirstFits res.argv
      → sd.read s 0xffff ≡ (pos (length (response_bytes res)), response_bytes res, s')
      → Sendable (leb 0x0104 (sd.version (sd.set_palmos_error s' res.err))) res
      → respond m sd req (whole_write len (pos len)) s
        ≡ check_response m sd req (first_len res.argv, some res) (sd.set_palmos_error s' res.err)
  unfolding respond ◌>>=◌
  respond-Exchange req res s s' len h f e v =
      rw
        (
          whole len (length req.argv) h,
          dlp_response_read-response m sd k res s s' v e,
          first_len-int res.argv f,
        )
        refl

  cmd_matches-same : (cmd : ℕ) → cmd_matches cmd cmd ≡ true
  unfolding cmd_matches
  cmd_matches-same cmd = ground arith

  check-good :
      (req : DlpRequest) (res : DlpResponse) (s : S) (args : List DlpArg)
      → res.cmd ≡ req.cmd
      → res.err ≡ 0
      → check_response m sd req (first_len args, some res) s ≡ some ((first_len args, some res), s)
  unfolding check_response first_len pure
  check-good req res s [] e e' = rw (e, cmd_matches-same req.cmd, e') refl
  check-good req res s (arg ∷ args) e e' = rw (e, cmd_matches-same req.cmd, e') refl

  check-refused :
      (req : DlpRequest) (res : DlpResponse) (s : S) (args : List DlpArg)
      → res.cmd ≡ req.cmd
      → (res.err == 0) ≡ false
      → check_response m sd req (first_len args, some res) s
        ≡ some (
          (err_dlp_palmos, some res),
          sd.set_error (sd.set_palmos_error s res.err) err_dlp_palmos,
        )
  unfolding check_response first_len pure pi_set_error change ◌>>=◌
  check-refused req res s [] e e' = rw (e, cmd_matches-same req.cmd, e') refl
  check-refused req res s (arg ∷ args) e e' = rw (e, cmd_matches-same req.cmd, e') refl

  -- What dlp_exec makes of a response: itself, or the device's error.
  abbrev pub outcome : Bool → DlpResponse → S → Answer × S
  outcome ok res s' =
      let s = sd.set_palmos_error s' res.err in
      if ok
      then ((first_len res.argv, some res), s)
      else ((err_dlp_palmos, some res), sd.set_error (sd.set_palmos_error s res.err) err_dlp_palmos)

  enough : (req : DlpRequest) → length req.argv ≤ length (encode_request req)
  enough req = omega (arith, length-encode_request req, args-le-sum req.argv)

  pub responded :
      (req : DlpRequest) (res : DlpResponse) (s s' : S)
      → FirstFits res.argv
      → sd.read s 0xffff ≡ (pos (length (response_bytes res)), response_bytes res, s')
      → Sendable (leb 0x0104 (sd.version (sd.set_palmos_error s' res.err))) res
      → res.cmd ≡ req.cmd
      → let len = length (encode_request req) in
        respond m sd req (whole_write len (pos len)) s ≡ some (outcome (res.err == 0) res s')
  responded req res s s' f came v c =
      let s1 = sd.set_palmos_error s' res.err in
      respond-Exchange req res s s' (length (encode_request req)) (enough req) f came v
      ∙ elim (Bool-cases (res.err == 0)) [
        | inl e ↦ rw e (check-good req res s1 res.argv c (grind arith))
        | inr e ↦ rw e (check-refused req res s1 res.argv c e)
      ]

  -- A request that is written whole and whose response, to the same command, arrives whole, where
  -- the allocator refuses nothing, the request has less than 2^31 bytes, and the response is one
  -- that the encoding has room for, with a first argument of less than 2^31 bytes: dlp_exec yields
  -- the response and the length of its first argument where its error is 0, and else reports the
  -- device's error, which it notes.
  pub dlp_exec-outcome :
      (req : DlpRequest) (res : DlpResponse) (s s' : S)
      → Exchange req res s s'
      → res.cmd ≡ req.cmd
      → dlp_exec m sd req s ≡ some (outcome (res.err == 0) res s')
  dlp_exec-outcome req res s s' x c =
      let len = length (encode_request req) in
      dlp_exec-wire m sd k req s x.small
      ∙ ap (λ (w : ℤ × S). respond m sd req (whole_write len w.0) w.1) x.wrote
      ∙ responded req res x.middle s' x.first_fits x.came x.sendable c

  pub request-outcome :
      (cmd argid : ℕ) (bytes : List ℕ) (res : DlpResponse) (s s' : S)
      → Exchange (one_arg cmd argid bytes) res (sd.reset_errors s) s'
      → res.cmd ≡ cmd
      → request m sd cmd argid (length bytes ∷ []) bytes s ≡ some (outcome (res.err == 0) res s')
  request-outcome cmd argid bytes res s s' x c =
      let req = one_arg cmd argid bytes in
      let len = length (encode_request req) in
      request-wire m sd k cmd argid bytes s x.small
      ∙ ap (λ (w : ℤ × S). respond m sd req (whole_write len w.0) w.1) x.wrote
      ∙ responded req res x.middle s' x.first_fits x.came x.sendable c
