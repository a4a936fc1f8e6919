-- ===== src/Dlp/Run.antt =====
-- What libpisock/dlp.c calls of the socket, and functions that change its state.
unfoldable pub use pilot_link.Base.Run.{Run, and_then, ◌>>=◌, ◌>>◌, pure, change, ask, checked}
use pilot_link.Base.{ℕ, Bool, List}
use pilot_link.Base.Int.{ℤ, negsuc}

-- pi_write, pi_read into a new buffer (its code and the bytes that it appends), pi_flush of the
-- input, the error calls, pi_version (its answer, and its effect) and pi_maxrecsize, the socket's state once a
-- synchronisation has ended, and whether the list of sockets has the socket.
pub record Socket (S : Type 0) : Type 0 where
  pub write : S → List ℕ → ℤ × S
  pub read : S → ℕ → ℤ × List ℕ × S
  pub flush : S → S
  pub reset_errors : S → S
  pub set_error : S → ℤ → S
  pub set_palmos_error : S → ℕ → S
  pub version : S → ℕ
  pub cache_version : S → S
  pub max_rec_size : S → ℕ
  pub end_connection : S → S
  pub known : S → Bool

abbrev pub err_dlp_palmos : ℤ
err_dlp_palmos = negsuc 300

abbrev pub err_dlp_datasize : ℤ
err_dlp_datasize = negsuc 303

abbrev pub err_dlp_command : ℤ
err_dlp_command = negsuc 304

abbrev pub err_generic_memory : ℤ
err_generic_memory = negsuc 499

abbrev pub err_sock_invalid : ℤ
err_sock_invalid = negsuc 200
