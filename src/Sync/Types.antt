-- ===== src/Sync/Types.antt =====
-- The data of libpisync/sync.c and include/pi-sync.h, and the calls that sync.c makes: the
-- conduit's callbacks (SyncHandler) and the device requests (dlp_*).
use pilot_link.Base.{ℕ, Bool, List, Option, [], ◌∷◌, not, ◌==◌}
use pilot_link.Base.Int.{ℤ}
use Prim.Native.Nat.{bit_and}

-- `buffer` holds the `len` bytes in use.
pub record PilotRecord : Type 0 where
  pub rec_id : ℕ
  pub cat_id : ℕ
  pub flags : ℕ
  pub buffer : List ℕ

pub record DesktopRecord : Type 0 where
  pub rec_id : ℕ
  pub cat_id : ℕ
  pub flags : ℕ

-- enum dlpRecAttributes
abbrev pub attr_deleted : ℕ
attr_deleted = 0x80

abbrev pub attr_dirty : ℕ
attr_dirty = 0x40

abbrev pub attr_secret : ℕ
attr_secret = 0x10

abbrev pub attr_archived : ℕ
attr_archived = 0x08

-- enum dlpOpenFlags
abbrev pub open_secret : ℕ
open_secret = 0x10

abbrev pub open_read_write : ℕ
open_read_write = 0xC0

-- `flags & mask`, as a C condition.
unfoldable pub has_flag : ℕ → ℕ → Bool
has_flag flags mask = not (bit_and flags mask == 0)

-- Which side's records an operation may modify.
pub data RecordModifier : Type 0 where
  pilot desktop both : RecordModifier

-- A variable that the code may leave unset holds `none` until it is written.
abbrev pub Handle : Type 0
Handle = Option ℕ

-- A `DesktopRecord *` that is not NULL is a number.
pub data Call : Type 0 where
  pre post : Handle → Call
  for_each for_each_modified : Option ℕ → Call
  compare_records : PilotRecord → ℕ → Call
  add_record : PilotRecord → Call
  replace_record : ℕ → PilotRecord → Call
  delete_record : ℕ → Call
  archive_record : ℕ → ℕ → Call
  match_record : PilotRecord → Option ℕ → Call
  free_match : ℕ → Call
  set_status_cleared : ℕ → Call
  set_pilot_id : ℕ → Option ℕ → Call
  prepare : ℕ → PilotRecord → Call
  dlp_open_db : ℕ → List ℕ → Call
  dlp_clean_up_database dlp_reset_sync_flags dlp_close_db : Handle → Call
  dlp_write_record : Handle → (flags rec_id cat_id : ℕ) → List ℕ → Call
  dlp_delete_record : Handle → (all rec_id : ℕ) → Call
  dlp_read_next_modified : Handle → Call
  dlp_read_by_index : Handle → ℕ → Call
  dlp_read_by_id : Handle → ℕ → Call

-- RecordQueueList: an item names a desktop record or holds a copy of a device record.
pub data QueueItem : Type 0 where
  from_desktop : ℕ → QueueItem
  from_pilot : PilotRecord → QueueItem

pub record RecordQueue : Type 0 where
  pub count : ℕ
  pub items : List QueueItem

abbrev pub empty_queue : RecordQueue
empty_queue = record { count = 0; items = [] }

-- The conduit's desktop records, which both sides read and write; the queue of the merge under way;
-- and the calls made, newest first.
pub record World : Type 0 where
  pub desk : ℕ → DesktopRecord
  pub queue : RecordQueue
  pub trace : List Call

-- The conduit and the device: what a call returns, what it writes through a pointer argument (a
-- number, a pointer to a desktop record, a device record), and what it does to the desktop records,
-- as any function of all that happened before. The outputs of a device request count where its
-- code is no error.
pub record Env : Type 0 where
  pub secret : Bool
  pub name : List ℕ
  pub code : World → Call → ℤ
  pub number : World → Call → ℕ
  pub pointer : World → Call → Option ℕ
  pub fetched : World → Call → PilotRecord
  pub touch : World → Call → ℕ → DesktopRecord

unfoldable pub after : Env → World → Call → World
after env w c = record w { desk = env.touch w c; trace = c ∷ w.trace }
