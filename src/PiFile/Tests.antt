-- ===== src/PiFile/Tests.antt =====
-- A file for writing with one record of two bytes, and a disk that takes everything.
use pilot_link.Base.{
  ℕ, ◌+◌, ◌^◌, ◌<◌, true, false, List, [], ◌∷◌, some, ◌≡◌, refl, arith, drop, replicate, inr,
}
use pilot_link.Base.Int.{pos}
use pilot_link.Buffer.Tests.{zeroed, zeroed-Ample, small, small-IsValid}
use pilot_link.PiFile.{
  DbInfo, Entry, null_block, block, PiFile, ent_hdr_size, unix_time_to_pilot_time,
}
use pilot_link.PiFile.Appended.{new_entry, pi_file_append_record-Writable}
use pilot_link.PiFile.Build.{pi_file_append_record}
use pilot_link.PiFile.Headers.{InHeader}
use pilot_link.PiFile.Indexes.{joined, at_offset, Takes}
use pilot_link.PiFile.Open.{pi_file_open}
use pilot_link.PiFile.Read.{pi_file_id_used, entry_at}
use pilot_link.PiFile.ReadBack.{reads, pi_file_read_record-pi_file_close}
use pilot_link.PiFile.Held.{Writable, start_of}
use pilot_link.PiFile.RoundTrip.{reopened, pi_file_open-pi_file_close}
use pilot_link.PiFile.Write.{Disk, first_offset, pi_file_close}

abbrev memo_info : DbInfo
memo_info = record {
  name = 77 ∷ replicate 33 0;
  flags = 8;
  misc_flags = 0;
  version = 1;
  kind = 0x44415441;
  creator = 0x6d656d6f;
  modnum = 3;
  create_date = 1000000000;
  modify_date = 1000000001;
  backup_date = 0;
}

abbrev first_entry : Entry
first_entry = record {
  offset = pos 0;
  size = pos 2;
  resource_id = 0;
  attrs = 0x41;
  kind = 0;
  uid = 12;
}

abbrev one_record : PiFile
one_record = record {
  err = pos 0;
  for_writing = true;
  app_info = block (5 ∷ []);
  app_info_size = pos 1;
  sort_info = null_block;
  sort_info_size = pos 0;
  next_record_list_id = 0;
  resource_flag = false;
  num_entries_allocated = 100;
  rbuf_size = 0;
  file = record { bytes = []; at = 0 };
  tmpbuf = some small;
  unique_id_seed = 0;
  info = memo_info;
  entries = first_entry ∷ [];
}

abbrev disk : Disk
disk = record { opens = true; takes = λ written bytes. true }

disk-Takes : Takes disk
disk-Takes = record { opened = refl; taken = λ written bytes. refl }

memo_info-InHeader : InHeader memo_info
unfolding unix_time_to_pilot_time
memo_info-InHeader = record {
  name_size = refl;
  flags_bits = omega arith;
  version_bits = omega arith;
  kind_bits = omega arith;
  creator_bits = omega arith;
  modnum_bits = omega arith;
  created_bits = omega arith;
  modified_bits = omega arith;
  backed_up_bits = omega arith;
  created_time = omega arith;
  modified_time = omega arith;
  backed_up_time = omega arith;
}

one_record-Writable : Writable one_record ((7 ∷ 8 ∷ []) ∷ []) (5 ∷ []) []
unfolding first_offset ent_hdr_size
one_record-Writable = record {
  writing = refl;
  of_kind = refl;
  no_more_lists = refl;
  info_fits = memo_info-InHeader;
  seed_bits = omega arith;
  count_bits = omega arith;
  entries_fit = (
    record {
      kind_bits = omega arith;
      id_bits = omega arith;
      attrs_bits = omega arith;
      uid_bits = omega arith;
    },
    tt,
  );
  sizes = (refl, tt);
  tmpbuf = small;
  has_tmpbuf = refl;
  tmpbuf_valid = small-IsValid;
  data_held = refl;
  app_held = refl;
  app_size = refl;
  sort_held = refl;
  sort_size = refl;
  total = omega arith;
}

pi_file_open-pi_file_close_example :
    (bytes : List ℕ) × (at : ℕ) × (pi_file_close disk one_record ≡ some (pos 0, bytes))
    × (drop (start_of one_record (5 ∷ []) []) bytes ≡ joined ((7 ∷ 8 ∷ []) ∷ []))
    × (pi_file_open zeroed (some bytes)
        ≡ some (
            reopened one_record
              ((7 ∷ 8 ∷ []) ∷ [])
              (5 ∷ [])
              []
              (record { bytes = bytes; at = at })))
pi_file_open-pi_file_close_example =
    pi_file_open-pi_file_close zeroed disk one_record ((7 ∷ 8 ∷ []) ∷ []) (5 ∷ []) [] zeroed-Ample
      disk-Takes one_record-Writable

entry_at-first : entry_at one_record.entries 0 ≡ some first_entry
unfolding entry_at
entry_at-first = refl

pi_file_read_record-pi_file_close_example :
    (bytes : List ℕ) × (pf' : PiFile) × (offset : ℕ) × (pf'' : PiFile) × (pi_file_close disk
        one_record
      ≡ some (pos 0, bytes))
    × (pi_file_open zeroed (some bytes) ≡ some pf')
    × (reads false zeroed pf' 0
        ≡ (pos 0, some (at_offset false offset (pos 2) first_entry, 7 ∷ 8 ∷ []), pf''))
pi_file_read_record-pi_file_close_example =
    pi_file_read_record-pi_file_close zeroed disk one_record ((7 ∷ 8 ∷ []) ∷ []) (5 ∷ []) [] 0
      first_entry (7 ∷ 8 ∷ []) zeroed-Ample disk-Takes one_record-Writable entry_at-first refl

id_not_used : pi_file_id_used one_record.entries 9 ≡ false
unfolding pi_file_id_used
id_not_used = refl

room_for_more : first_offset one_record + 1 + 0 + 2 + 10 + 3 < 2 ^ 31
unfolding first_offset ent_hdr_size
room_for_more = omega arith

pi_file_append_record-Writable_example :
    (pf' : PiFile) × (pi_file_append_record zeroed one_record (1 ∷ 2 ∷ 3 ∷ []) 0x80 2 9
      ≡ some (pos 3, pf'))
    × (pf'.entries ≡ first_entry ∷ new_entry 0x80 2 9 3 ∷ [])
    × Writable pf' ((7 ∷ 8 ∷ []) ∷ (1 ∷ 2 ∷ 3 ∷ []) ∷ []) (5 ∷ []) []
pi_file_append_record-Writable_example =
    pi_file_append_record-Writable zeroed one_record ((7 ∷ 8 ∷ []) ∷ []) (5 ∷ []) []
      (1 ∷ 2 ∷ 3 ∷ []) 0x80 2 9 zeroed-Ample one_record-Writable refl (inr id_not_used)
      (omega arith) (omega arith) room_for_more
