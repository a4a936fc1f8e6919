-- ===== src/PiFile.antt =====
-- libpisock/pi-file.c: database files, read from a file and written to one.
pub mod Open
pub mod Read
pub mod Build
pub mod Write
pub mod Headers
pub mod Indexes
pub mod Loaded
pub mod Held
pub mod RoundTrip
pub mod ReadBack
pub mod Appended
mod Tests
use pilot_link.Base.{
  ℕ, zero, suc, ◌+◌, ◌-◌, ◌*◌, ◌/◌, ◌%◌, ◌^◌, ◌==◌, Bool, true, false, List, [], ◌∷◌, Option, none,
  some, length, drop, leb, if◌then◌else◌,
}
use pilot_link.Base.Int.{ℤ, pos, negsuc}
use pilot_link.Buffer.{Buffer}

-- The times are the bits of a `time_t` of 64 bits; the name has 34 bytes.
pub record DbInfo : Type 0 where
  pub name : List ℕ
  pub flags : ℕ
  pub misc_flags : ℕ
  pub version : ℕ
  pub kind : ℕ
  pub creator : ℕ
  pub modnum : ℕ
  pub create_date : ℕ
  pub modify_date : ℕ
  pub backup_date : ℕ

pub record Entry : Type 0 where
  pub offset : ℤ
  pub size : ℤ
  pub resource_id : ℕ
  pub attrs : ℕ
  pub kind : ℕ
  pub uid : ℕ

-- A pointer to a block of memory, with what it points to, and one whose block has been freed.
pub data Block : Type 0 where
  null_block dangling : Block
  block : List ℕ → Block

-- A file that is being read: its bytes and the position.
pub record File : Type 0 where
  pub bytes : List ℕ
  pub at : ℕ

-- `num_entries` is the length of the entries. `file` is empty in a structure for writing.
pub record PiFile : Type 0 where
  pub err : ℤ
  pub for_writing : Bool
  pub app_info : Block
  pub app_info_size : ℤ
  pub sort_info : Block
  pub sort_info_size : ℤ
  pub next_record_list_id : ℕ
  pub resource_flag : Bool
  pub num_entries_allocated : ℕ
  pub rbuf_size : ℕ
  pub file : File
  pub tmpbuf : Option Buffer
  pub unique_id_seed : ℕ
  pub info : DbInfo
  pub entries : List Entry

abbrev pub is_resource : (flags : ℕ) → Bool
is_resource flags = flags % 2 == 1

unfoldable pub ent_hdr_size : (resource : Bool) → ℕ
ent_hdr_size true = 10
ent_hdr_size false = 8

abbrev pub time_delta : ℕ
time_delta = 2082844800

-- unsigned long has 64 bits.
unfoldable pub pilot_time_to_unix_time : ℕ → ℕ
pilot_time_to_unix_time raw_time = (raw_time + 2 ^ 64 - time_delta) % 2 ^ 64

unfoldable pub unix_time_to_pilot_time : ℕ → ℕ
unix_time_to_pilot_time t = (t + time_delta) % 2 ^ 64

abbrev pub err_file_invalid : ℤ
err_file_invalid = negsuc 399

abbrev pub err_file_error : ℤ
err_file_error = negsuc 400

abbrev pub err_file_not_found : ℤ
err_file_not_found = negsuc 402

abbrev pub err_file_already_exists : ℤ
err_file_already_exists = negsuc 403

abbrev pub err_generic_memory : ℤ
err_generic_memory = negsuc 499

abbrev pub err_generic_argument : ℤ
err_generic_argument = negsuc 500
