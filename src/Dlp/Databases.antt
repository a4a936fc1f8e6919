-- ===== src/Dlp/Databases.antt =====
-- libpisock/dlp.c: requests on databases and on the session. Names are strings without their NUL.
use pilot_link.Base.{
  ℕ, zero, suc, ◌+◌, List, [], ◌∷◌, ◌++◌, Option, none, some, length, drop, if◌then◌else◌,
}
use pilot_link.Base.Int.{ℤ, pos, negsuc}
use pilot_link.Buffer.{Allocator}
use pilot_link.Macros.{get_byte, get_short, set_byte, set_short, set_long}
use pilot_link.Dlp.Run.{Socket, Run, ◌>>=◌, ◌>>◌, pure, change, ask, checked, err_sock_invalid}
use pilot_link.Dlp.Args.{DlpArg}
use pilot_link.Dlp.Exec.{DlpResponse, Answer, ask_device, request}

-- DLP_RESPONSE_DATA(res, arg, offset): the bytes from there on. Without such an argument the
-- pointer is not one to read through.
unfoldable pub response_data : List DlpArg → (arg offset : ℕ) → List ℕ
response_data [] arg offset = []
response_data (first ∷ args) zero offset = drop offset first.data_
response_data (first ∷ args) (suc arg) offset = response_data args arg offset

unfoldable pub string_bytes : List ℕ → List ℕ
string_bytes name = name ++ (0 ∷ [])

-- `if (result > 0)`: outputs that are read from the response.
unfoldable pub when_positive :
    {S A : Type 0} → (DlpResponse → Option A) → Answer → Run S (ℤ × Option A)
when_positive out (pos (suc n), some res) = do a ← checked (out res); pure (pos (suc n), some a)
when_positive out (pos (suc n), none) = checked none
when_positive out (pos zero, res) = pure (pos 0, none)
when_positive out (negsuc n, res) = pure (negsuc n, none)

unfoldable pub code_only : {S : Type 0} → Answer → Run S ℤ
code_only answer = pure answer.0

module _ {S : Type 0} (m : Allocator) (sd : Socket S) where
  unfoldable pub dlp_open_db : (card_no mode : ℕ) → List ℕ → Run S (ℤ × Option ℕ)
  dlp_open_db card_no mode name =
      request m sd 0x17 0x20 ((2 + length name + 1) ∷ [])
        (set_byte card_no ++ (set_byte mode ++ string_bytes name))
      >>= when_positive (λ res. get_byte (response_data res.argv 0 0))

  unfoldable pub dlp_delete_db : (card : ℕ) → List ℕ → Run S ℤ
  dlp_delete_db card name =
      request m sd 0x1a 0x20 ((2 + (length name + 1)) ∷ [])
        (set_byte card ++ (set_byte 0 ++ string_bytes name))
      >>= code_only

  unfoldable pub dlp_create_db :
      (creator kind card_no flags version : ℕ) → List ℕ → Run S (ℤ × Option ℕ)
  dlp_create_db creator kind card_no flags version name =
      request m sd 0x18 0x20 ((14 + (length name + 1)) ∷ []) (
        set_long creator
        ++ (set_long kind
            ++ (set_byte card_no
                ++ (set_byte 0 ++ (set_short flags ++ (set_short version ++ string_bytes name))))))
      >>= when_positive (λ res. get_byte (response_data res.argv 0 0))

  unfoldable pub dlp_close_db : ℕ → Run S ℤ
  dlp_close_db handle = request m sd 0x19 0x20 (1 ∷ []) (set_byte handle) >>= code_only

  unfoldable pub dlp_close_db_all : Run S ℤ
  dlp_close_db_all = request m sd 0x19 0x21 [] [] >>= code_only

  unfoldable pub dlp_read_open_db_info : ℕ → Run S (ℤ × Option ℕ)
  dlp_read_open_db_info handle =
      request m sd 0x2b 0x20 (1 ∷ []) (set_byte handle)
      >>= when_positive (λ res. get_short (response_data res.argv 0 0))

  unfoldable pub dlp_clean_up_database : ℕ → Run S ℤ
  dlp_clean_up_database handle = request m sd 0x26 0x20 (1 ∷ []) (set_byte handle) >>= code_only

  unfoldable pub dlp_reset_sync_flags : ℕ → Run S ℤ
  dlp_reset_sync_flags handle = request m sd 0x27 0x20 (1 ∷ []) (set_byte handle) >>= code_only

  unfoldable pub dlp_move_category : (handle from_cat to_cat : ℕ) → Run S ℤ
  dlp_move_category handle from_cat to_cat =
      request m sd 0x2c 0x20 (4 ∷ [])
        (set_byte handle ++ (set_byte from_cat ++ (set_byte to_cat ++ set_byte 0)))
      >>= code_only

  unfoldable pub dlp_add_sync_log_entry : List ℕ → Run S ℤ
  dlp_add_sync_log_entry entry =
      request m sd 0x2a 0x20 ((length entry + 1) ∷ []) (string_bytes entry) >>= code_only

  -- Where the request succeeded, pi_version reads and caches the version of the device.
  unfoldable pub with_version : ℤ → Run S ℤ
  with_version (pos n) = do change sd.cache_version; pure (pos n)
  with_version (negsuc n) = pure (negsuc n)

  unfoldable pub dlp_open_conduit : Run S ℤ
  dlp_open_conduit = request m sd 0x2e 0x20 [] [] >>= code_only >>= with_version

  unfoldable pub ended : ℤ → Run S ℤ
  ended (pos zero) = do change sd.end_connection; pure (pos 0)
  ended result = pure result

  -- Nothing further where the socket is not in the list of sockets.
  unfoldable pub if_known : Run S ℤ → Run S ℤ
  if_known go = do
    change sd.reset_errors
    known ← ask sd.known
    if known then go else pure err_sock_invalid

  unfoldable pub dlp_end_of_sync : ℕ → Run S ℤ
  dlp_end_of_sync status =
      if_known (do answer ← ask_device m sd 0x2f 0x20 (2 ∷ []) (set_short status); ended answer.0)

  unfoldable pub dlp_abort_sync : Run S ℤ
  dlp_abort_sync = if_known (do change sd.end_connection; pure (pos 0))
