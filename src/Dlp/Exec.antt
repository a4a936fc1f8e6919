-- ===== src/Dlp/Exec.antt =====
-- libpisock/dlp.c: dlp_request_write, dlp_response_read and dlp_exec.
use pilot_link.Base.{
  ℕ, ◌+◌, ◌-◌, ◌%◌, ◌^◌, ◌==◌, Bool, true, not, ◌&&◌, ◌||◌, List, [], ◌∷◌, ◌++◌, Option, none, some,
  length, drop, leb, ltb, if◌then◌else◌,
}
use pilot_link.Base.Int.{ℤ, pos, negsuc, int32}
use pilot_link.Buffer.{Buffer, Allocator, pi_buffer_new}
use pilot_link.Macros.{get_byte, get_short, set_byte}
use pilot_link.Dlp.Run.{
  Socket, Run, ◌>>=◌, ◌>>◌, pure, change, ask, checked, err_dlp_palmos, err_dlp_command,
  err_generic_memory,
}
use pilot_link.Dlp.Args.{
  DlpArg, DlpRequest, dlp_arg_len, encode_args, parse_args, pointers, overwrite,
  dlp_request_new_with_argid, fill,
}

pub record DlpResponse : Type 0 where
  pub cmd : ℕ
  pub err : ℕ
  pub argv : List DlpArg

-- `dlp_arg_len(...) + 2` as a size_t: the `int` is extended by its sign.
unfoldable pub request_size : List DlpArg → ℕ
request_size args =
    let len = (dlp_arg_len args + 2) % 2 ^ 32 in
    if leb (2 ^ 31) len then len + 2 ^ 64 - 2 ^ 32 else len

unfoldable pub encode_request : DlpRequest → List ℕ
encode_request req = set_byte req.cmd ++ (set_byte (length req.argv) ++ encode_args req.argv)

-- A write that falls short is an error.
unfoldable pub whole_write : ℕ → ℤ → ℤ
whole_write len (pos n) = if ltb n len then negsuc 0 else pos n
whole_write len (negsuc n) = negsuc n

abbrev pub Answer : Type 0
Answer = ℤ × Option DlpResponse

-- `result < argc`
unfoldable pub below : ℤ → ℕ → Bool
below (pos n) argc = ltb n argc
below (negsuc n) argc = true

-- Both of two allocations.
abbrev and_also : Option (List ℕ) → Option (List ℕ) → Option (List ℕ)
and_also none array = none
and_also (some struct) array = array

-- The structure and the array of its arguments; what they hold is passed on apart.
unfoldable pub dlp_response_new : Allocator → (argc : ℕ) → Option (List ℕ)
dlp_response_new m argc = and_also (m.malloc 24) (pointers m argc)

-- The length of the first argument.
unfoldable pub first_len : List DlpArg → ℤ
first_len [] = pos 0
first_len (arg ∷ args) = pos (length arg.data_)

-- A size or a code in the 32 bits of an `int`.
unfoldable pub as_int : ℤ → ℤ
as_int (pos n) = int32 n
as_int (negsuc n) = negsuc n

abbrev pub int_code : Answer → Answer
int_code (code, res) = (as_int code, res)

-- The devices that answer with another command's number.
unfoldable pub cmd_matches : (sent received : ℕ) → Bool
cmd_matches sent received =
    received == sent
    || (sent == 0x56 && received == 0x59)
    || sent == 0x24
    || sent == 0x20
    || sent == 0x60

module _ {S : Type 0} (m : Allocator) (sd : Socket S) where
  unfoldable pub pi_set_error : ℤ → Run S ℤ
  pi_set_error code = do change (λ s. sd.set_error s code); pure code

  unfoldable pub write_block : ℕ → DlpRequest → Option (List ℕ) → Run S ℤ
  write_block len req none = pi_set_error err_generic_memory
  write_block len req (some block) = do
    exec_buf ← checked (overwrite block 0 (encode_request req))
    change sd.flush
    code ← (λ s. some (sd.write s exec_buf))
    pure (whole_write len code)

  unfoldable pub dlp_request_write : DlpRequest → Run S ℤ
  dlp_request_write req = write_block (request_size req.argv) req (m.malloc (request_size req.argv))

  unfoldable pub memory_error : Run S Answer
  memory_error = do result ← pi_set_error err_generic_memory; pure (result, none)

  unfoldable pub finish_response : DlpResponse → Option ℤ → Run S Answer
  finish_response res none = pure (first_len res.argv, some res)
  finish_response res (some code) = do result ← pi_set_error code; pure (result, some res)

  -- The response's error and arguments, once dlp_response_new has answered.
  unfoldable pub read_args : (cmd argc : ℕ) → List ℕ → Option (List ℕ) → Run S Answer
  read_args cmd argc buf none = memory_error
  read_args cmd argc buf (some res) = do
    err ← checked (get_short (drop 2 buf))
    change (λ s. sd.set_palmos_error s err)
    version ← ask sd.version
    parsed ← checked (parse_args m (leb 0x0104 version) argc (drop 4 buf))
    finish_response (record { cmd = cmd; err = err; argv = parsed.args }) parsed.error

  unfoldable pub after_read : ℤ → List ℕ → Run S Answer
  after_read (negsuc n) buf = pure (negsuc n, none)
  after_read (pos n) buf =
      if ltb n 4 then (do result ← pi_set_error err_dlp_command; pure (result, none)) else (do
        cmd ← checked (get_byte buf)
        argc ← checked (get_byte (drop 1 buf))
        read_args (cmd % 128) argc buf (dlp_response_new m argc))

  unfoldable pub pi_read : ℕ → Run S (ℤ × List ℕ)
  pi_read len s = let got = sd.read s len in some ((got.0, got.1), got.2)

  unfoldable pub read_into : Option Buffer → Run S Answer
  read_into none = memory_error
  read_into (some dlp_buf) = do got ← pi_read dlp_buf.allocated; after_read got.0 got.1

  unfoldable pub dlp_response_read : Run S Answer
  dlp_response_read = read_into (pi_buffer_new m 0xffff)

  unfoldable pub check_response : DlpRequest → Answer → Run S Answer
  check_response req (negsuc n, res) = pure (negsuc n, res)
  check_response req (pos n, none) = checked none
  check_response req (pos n, some res) =
      if not (cmd_matches req.cmd res.cmd)
      then (do result ← pi_set_error err_dlp_command; pure (result, some res))
      else if not (res.err == 0)
      then (do
        change (λ s. sd.set_palmos_error s res.err)
        result ← pi_set_error err_dlp_palmos
        pure (result, some res))
      else pure (pos n, some res)

  -- What follows the writing of a request. The response's length is put into an `int`.
  unfoldable pub respond : DlpRequest → ℤ → Run S Answer
  respond req written =
      if below written (length req.argv)
      then pure (written, none)
      else dlp_response_read >>= λ answer. check_response req (int_code answer)

  unfoldable pub dlp_exec : DlpRequest → Run S Answer
  dlp_exec req = dlp_request_write req >>= respond req

  unfoldable pub exec_filled : List ℕ → Option DlpRequest → Run S Answer
  exec_filled bytes none = memory_error
  exec_filled bytes (some req) = do filled ← checked (fill bytes req); dlp_exec filled

  -- The course that the requests share: a request with its arguments' lengths, the bytes written
  -- into the first, and dlp_exec.
  unfoldable pub ask_device : (cmd argid : ℕ) → List ℕ → List ℕ → Run S Answer
  ask_device cmd argid lens bytes = exec_filled bytes (dlp_request_new_with_argid m cmd argid lens)

  unfoldable pub request : (cmd argid : ℕ) → List ℕ → List ℕ → Run S Answer
  request cmd argid lens bytes = do change sd.reset_errors; ask_device cmd argid lens bytes
