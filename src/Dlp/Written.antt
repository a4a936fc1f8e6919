-- ===== src/Dlp/Written.antt =====
-- What the requests hand to the socket.
use pilot_link.Buffer.Blocks.{Ample}
use pilot_link.Base.{
  ℕ, zero, suc, ◌+◌, ◌^◌, ◌≤◌, ◌<◌, List, [], ◌∷◌, some, ◌≡◌, refl, sym, ap, ◌∙◌, arith, length,
  drop, leb-true,
}
use mathlib.Core.List.{append-nil}
use pilot_link.Base.Int.{ℤ}
use pilot_link.Buffer.{Allocator}
use pilot_link.Macros.{set_byte}
use pilot_link.Dlp.Run.{Socket, ◌>>=◌, pure, change, checked}
use pilot_link.Dlp.Args.{
  DlpArg, DlpRequest, arg_len_sum, dlp_arg_len, overwrite, dlp_request_new_with_argid, fill,
  args_new, pointers,
}
use pilot_link.Dlp.Encoded.{length-encode_args, dlp_arg_new-Ample}
use pilot_link.Dlp.Exec.{
  request_size, encode_request, whole_write, write_block, dlp_request_write, respond, dlp_exec,
  ask_device, exec_filled, request,
}

drop-all : (xs : List ℕ) (n : ℕ) → length xs ≤ n → drop n xs ≡ []
drop-all [] zero h = refl
drop-all [] (suc n) h = refl
drop-all (x ∷ xs) zero h = absurd (omega arith)
drop-all (x ∷ xs) (suc n) h = drop-all xs n (omega arith)

overwrite-whole :
    (block bytes : List ℕ) → length bytes ≡ length block → overwrite block 0 bytes ≡ some bytes
unfolding overwrite
overwrite-whole block bytes h =
    rw
      (
        leb-true (0 + length bytes) (length block) (omega arith),
        drop-all block (0 + length bytes) (omega arith),
      )
      (ap some (append-nil bytes))

pub length-encode_request :
    (req : DlpRequest) → length (encode_request req) ≡ arg_len_sum req.argv + 2
unfolding encode_request set_byte
length-encode_request req = omega (arith, length-encode_args req.argv)

request_size-sum :
    (args : List DlpArg) → arg_len_sum args + 2 < 2 ^ 31 → request_size args ≡ arg_len_sum args + 2
unfolding request_size dlp_arg_len
request_size-sum args h = ground arith

-- pi_write of a request's bytes, after the flush of the input.
abbrev pub sent : {S : Type 0} → Socket S → S → List ℕ → ℤ × S
sent sd s wire = sd.write (sd.flush s) wire

abbrev pub one_arg : (cmd argid : ℕ) → List ℕ → DlpRequest
one_arg cmd argid bytes = record { cmd = cmd; argv = record { id = argid; data_ = bytes } ∷ [] }

module _ {S : Type 0} (m : Allocator) (sd : Socket S) (k : Ample m) where
  write_block-some :
      (len : ℕ) (req : DlpRequest) (block : List ℕ) (s : S)
      → overwrite block 0 (encode_request req) ≡ some (encode_request req)
      → write_block m sd len req (some block) s
        ≡ some
            (whole_write len (sent sd s (encode_request req)).0, (sent sd s (encode_request req)).1)
  unfolding write_block ◌>>=◌ checked change pure
  write_block-some len req block s e = rw e refl

  size-fits :
      (req : DlpRequest) (block : List ℕ)
      → arg_len_sum req.argv + 2 < 2 ^ 31
      → m.malloc (request_size req.argv) ≡ some block
      → length (encode_request req) ≡ length block
  size-fits req block h e =
      length-encode_request req
      ∙ sym (request_size-sum req.argv h)
      ∙ sym (m.malloc_size (request_size req.argv) block e)

  -- dlp_request_write on arguments that take less than 2^31 bytes, where the allocator refuses
  -- nothing, writes within the memory that it allocates and leaves none of it unwritten: it flushes
  -- the input and hands the encoded request to pi_write; a write that falls short is an error.
  pub dlp_request_write-wire :
      (req : DlpRequest) (s : S)
      → arg_len_sum req.argv + 2 < 2 ^ 31
      → dlp_request_write m sd req s
        ≡ some (
          whole_write (length (encode_request req)) (sent sd s (encode_request req)).0,
          (sent sd s (encode_request req)).1,
        )
  unfolding dlp_request_write
  dlp_request_write-wire req s h =
      let (block, e) = k (request_size req.argv) in
      rw
        (
          e,
          write_block-some (request_size req.argv) req block s
              (overwrite-whole block (encode_request req) (size-fits req block h e)),
        )
        (ap
          (λ len. some (
            whole_write len (sent sd s (encode_request req)).0,
            (sent sd s (encode_request req)).1,
          ))
          (request_size-sum req.argv h ∙ sym (length-encode_request req)))

  pub dlp_exec-wire :
      (req : DlpRequest) (s : S)
      → arg_len_sum req.argv + 2 < 2 ^ 31
      → dlp_exec m sd req s
        ≡ respond m sd req
            (whole_write (length (encode_request req)) (sent sd s (encode_request req)).0)
            (sent sd s (encode_request req)).1
  unfolding dlp_exec ◌>>=◌
  dlp_exec-wire req s h = rw (dlp_request_write-wire req s h) refl

  new-one :
      (cmd argid len : ℕ)
      → (block : List ℕ) × (dlp_request_new_with_argid m cmd argid (len ∷ [])
          ≡ some (one_arg cmd argid block))
        × (length block ≡ len)
  unfolding dlp_request_new_with_argid pointers args_new
  new-one cmd argid len =
      let (struct, e) = k 16 in
      let (array, e') = k 8 in
      let (block, e'', l) = dlp_arg_new-Ample m argid len k in (block, rw (e, e', e'') refl, l)

  fill-one :
      (cmd argid : ℕ) (block bytes : List ℕ)
      → length bytes ≡ length block
      → fill bytes (one_arg cmd argid block) ≡ some (one_arg cmd argid bytes)
  unfolding fill
  fill-one cmd argid block bytes h = rw (overwrite-whole block bytes h) refl

  pub request-wire :
      (cmd argid : ℕ) (bytes : List ℕ) (s : S)
      → arg_len_sum (one_arg cmd argid bytes).argv + 2 < 2 ^ 31
      → let req = one_arg cmd argid bytes in
        request m sd cmd argid (length bytes ∷ []) bytes s
        ≡ respond m sd req
            (whole_write
              (length (encode_request req))
              (sent sd (sd.reset_errors s) (encode_request req)).0)
            (sent sd (sd.reset_errors s) (encode_request req)).1
  unfolding request ask_device exec_filled ◌>>=◌ checked change
  request-wire cmd argid bytes s h =
      let (block, e, l) = new-one cmd argid (length bytes) in
      rw (e, fill-one cmd argid block bytes (sym l))
        (dlp_exec-wire (one_arg cmd argid bytes) (sd.reset_errors s) h)
