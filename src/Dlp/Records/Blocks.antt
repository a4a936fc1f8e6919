-- ===== src/Dlp/Records/Blocks.antt =====
-- libpisock/dlp.c: the application and sort blocks of a database, and records by category.
use pilot_link.Base.{
  ℕ, ◌+◌, ◌-◌, List, [], ◌∷◌, ◌++◌, Option, none, some, length, ltb, if◌then◌else◌,
}
use pilot_link.Base.Int.{ℤ, pos, negsuc}
use pilot_link.Buffer.{Buffer, Allocator}
use pilot_link.Macros.{set_byte, set_short}
use pilot_link.Dlp.Run.{
  Socket, Run, ◌>>=◌, ◌>>◌, pure, change, checked, err_dlp_datasize, err_dlp_command,
  err_generic_memory,
}
use pilot_link.Dlp.Args.{DlpRequest, dlp_request_new, fill}
use pilot_link.Dlp.Exec.{Answer, request, dlp_exec, pi_set_error}
use pilot_link.Dlp.Databases.{response_data, code_only}
use pilot_link.Dlp.Records.{append_to, cleared}

module _ {S : Type 0} (m : Allocator) (sd : Socket S) where
  -- A block's bytes come after two others.
  unfoldable pub block_read : Option Buffer → Answer → Run S (ℤ × Option Buffer)
  block_read buffer (negsuc n, res) = pure (negsuc n, buffer)
  block_read buffer (pos n, none) = checked none
  block_read buffer (pos n, some res) = if ltb n 2 then pure (err_dlp_command, buffer) else (do
    buffer' ← append_to m sd buffer (response_data res.argv 0 2)
    pure (pos (n - 2), buffer'))

  unfoldable pub read_block_request :
      (cmd handle offset req_bytes : ℕ) → Option Buffer → Run S (ℤ × Option Buffer)
  read_block_request cmd handle offset req_bytes buffer =
      request m sd cmd 0x20 (6 ∷ [])
        (set_byte handle ++ (set_byte 0 ++ (set_short offset ++ set_short req_bytes)))
      >>= block_read (cleared m sd buffer)

  unfoldable pub dlp_read_app_block :
      (handle offset req_bytes : ℕ) → Option Buffer → Run S (ℤ × Option Buffer)
  dlp_read_app_block = read_block_request 0x1b

  unfoldable pub dlp_read_sort_block :
      (handle offset req_bytes : ℕ) → Option Buffer → Run S (ℤ × Option Buffer)
  dlp_read_sort_block = read_block_request 0x1d

  -- The request is allocated before its length is tested; -131 is returned, another code is set.
  unfoldable pub write_block_of : (handle : ℕ) → List ℕ → DlpRequest → Run S ℤ
  write_block_of handle content req =
      if ltb 0xffff (length content + 10)
      then (do change (λ s. sd.set_error s err_dlp_datasize); pure (negsuc 130))
      else (do
        filled ←
            checked (
              fill (set_byte handle ++ (set_byte 0 ++ (set_short (length content) ++ content))) req)
        dlp_exec m sd filled >>= code_only)

  unfoldable pub write_block_with : (handle : ℕ) → List ℕ → Option DlpRequest → Run S ℤ
  write_block_with handle content none = pi_set_error m sd err_generic_memory
  write_block_with handle content (some req) = write_block_of handle content req

  unfoldable pub write_block_request : (cmd handle : ℕ) → List ℕ → Run S ℤ
  write_block_request cmd handle content = do
    change sd.reset_errors
    write_block_with handle content (dlp_request_new m cmd ((4 + length content) ∷ []))

  unfoldable pub dlp_write_app_block : (handle : ℕ) → List ℕ → Run S ℤ
  dlp_write_app_block = write_block_request 0x1c

  unfoldable pub dlp_write_sort_block : (handle : ℕ) → List ℕ → Run S ℤ
  dlp_write_sort_block = write_block_request 0x1e
