-- ===== src/Dlp/Args.antt =====
-- libpisock/dlp.c: arguments of requests and responses, and their encoding.
use pilot_link.Base.{
  ℕ, zero, suc, ◌+◌, ◌*◌, ◌/◌, ◌%◌, ◌^◌, ◌==◌, Bool, true, false, ◌&&◌, List, [], ◌∷◌, ◌++◌, Option,
  none, some, length, take, drop, leb, ltb, if◌then◌else◌,
}
use pilot_link.Base.Int.{ℤ}
use pilot_link.Base.Partial.{◌>>=◌}
use pilot_link.Buffer.{Allocator}
use pilot_link.Macros.{get_byte, get_short, get_long, set_byte, set_short, set_long}
use pilot_link.AppInfo.{read_block}
use pilot_link.Dlp.Run.{err_dlp_datasize, err_generic_memory}

-- Its `len` is the length of the data.
pub record DlpArg : Type 0 where
  pub id : ℕ
  pub data_ : List ℕ

unfoldable pub data_block : Allocator → ℕ → Option (List ℕ)
data_block m zero = some []
data_block m (suc len) = m.malloc (suc len)

-- Of malloc for a structure only its success matters.
unfoldable pub dlp_arg_new : Allocator → (id len : ℕ) → Option DlpArg
dlp_arg_new m id len = do
  struct ← m.malloc 24
  block ← data_block m len
  some (record { id = id; data_ = block })

-- The three forms of an argument, by its id and its length.
pub data Form : Type 0 where
  tiny short long : Form

unfoldable pub form : (id len : ℕ) → Form
form id len =
    if ltb len 0xff && id / 64 % 4 == 0
    then tiny
    else if ltb len 0xffff && id / 64 % 2 == 0
    then short
    else long

unfoldable pub header_size : Form → ℕ
header_size tiny = 2
header_size short = 4
header_size long = 6

-- The sum before it is cut to an `int`.
unfoldable pub arg_len_sum : List DlpArg → ℕ
arg_len_sum [] = 0
arg_len_sum (arg ∷ args) =
    header_size (form arg.id (length arg.data_)) + length arg.data_ + arg_len_sum args

-- The bits of the `int` that it returns.
unfoldable pub dlp_arg_len : List DlpArg → ℕ
dlp_arg_len args = arg_len_sum args % 2 ^ 32

-- `id | 2 ^ bit`
unfoldable pub or_bit : (bit id : ℕ) → ℕ
or_bit bit id = if id / 2 ^ bit % 2 == 1 then id else id + 2 ^ bit

unfoldable pub arg_header : Form → (id len : ℕ) → List ℕ
arg_header tiny id len = set_byte id ++ set_byte len
arg_header short id len = set_byte (or_bit 7 id) ++ (set_byte 0 ++ set_short len)
arg_header long id len = set_byte (or_bit 6 id) ++ (set_byte 0 ++ set_long len)

-- The tests of dlp_request_write, apart from those of dlp_arg_len.
unfoldable pub written_form : (id len : ℕ) → Form
written_form id len =
    if ltb len 0xff && id / 64 % 4 == 0
    then tiny
    else if ltb len 0xffff && id / 64 % 2 == 0
    then short
    else long

unfoldable pub encode_args : List DlpArg → List ℕ
encode_args [] = []
encode_args (arg ∷ args) =
    arg_header (written_form arg.id (length arg.data_)) arg.id (length arg.data_)
    ++ (arg.data_ ++ encode_args args)

-- The arguments of a response as far as they were read, and the error that stopped the reading.
pub record Parsed : Type 0 where
  pub args : List DlpArg
  pub error : Option ℤ

abbrev pub with_arg : DlpArg → Parsed → Parsed
with_arg arg parsed = record parsed { args = arg ∷ parsed.args }

abbrev pub stopped : ℤ → Parsed
stopped code = record { args = []; error = some code }

-- An argument's id, its length and what follows its header.
pub data Head : Type 0 where
  refused : ℤ → Head
  head : (id len : ℕ) → List ℕ → Head

unfoldable pub long_head : Bool → ℕ → List ℕ → Option Head
long_head false b buf = some (refused err_dlp_datasize)
long_head true b buf = do len ← get_long (drop 2 buf); some (head (b % 64) len (drop 6 buf))

unfoldable pub short_head : ℕ → List ℕ → Option Head
short_head b buf = do len ← get_short (drop 2 buf); some (head (b % 64) len (drop 4 buf))

unfoldable pub tiny_head : ℕ → List ℕ → Option Head
tiny_head b buf = do len ← get_byte (drop 1 buf); some (head b len (drop 2 buf))

unfoldable pub head_by : (large : Bool) → ℕ → List ℕ → Option Head
head_by large b buf =
    if b / 64 % 2 == 1
    then long_head large b buf
    else if b / 128 % 2 == 1
    then short_head b buf
    else tiny_head b buf

unfoldable pub parse_head : (large : Bool) → List ℕ → Option Head
parse_head large buf = do b ← get_byte buf; head_by large b buf

-- The data is copied into the new argument.
unfoldable pub with_new :
    (List ℕ → Option Parsed) → (len : ℕ) → List ℕ → Option DlpArg → Option Parsed
with_new go len rest none = some (stopped err_generic_memory)
with_new go len rest (some arg) = do
  data_ ← read_block len rest
  more ← go (drop len rest)
  some (with_arg (record arg { data_ = data_ }) more)

unfoldable pub with_head : Allocator → (List ℕ → Option Parsed) → Option Head → Option Parsed
with_head m go none = none
with_head m go (some (refused code)) = some (stopped code)
with_head m go (some (head id len rest)) = with_new go len rest (dlp_arg_new m id len)

-- `large`: the device's version is 1.4 at least.
unfoldable pub parse_args : Allocator → (large : Bool) → ℕ → List ℕ → Option Parsed
parse_args m large zero buf = some (record { args = []; error = none })
parse_args m large (suc count) buf = with_head m (parse_args m large count) (parse_head large buf)

pub record DlpRequest : Type 0 where
  pub cmd : ℕ
  pub argv : List DlpArg

unfoldable pub args_new : Allocator → ℕ → List ℕ → Option (List DlpArg)
args_new m id [] = some []
args_new m id (len ∷ lens) = do
  arg ← dlp_arg_new m id len
  args ← args_new m (suc id) lens
  some (arg ∷ args)

-- An array of `argc` pointers, where there are arguments.
unfoldable pub pointers : Allocator → ℕ → Option (List ℕ)
pointers m zero = some []
pointers m (suc argc) = m.malloc (8 * suc argc)

-- A request for arguments of the lengths `lens`.
unfoldable pub dlp_request_new_with_argid : Allocator → (cmd argid : ℕ) → List ℕ → Option DlpRequest
dlp_request_new_with_argid m cmd argid lens = do
  struct ← m.malloc 16
  array ← pointers m (length lens)
  args ← args_new m argid lens
  some (record { cmd = cmd; argv = args })

unfoldable pub dlp_request_new : Allocator → (cmd : ℕ) → List ℕ → Option DlpRequest
dlp_request_new m cmd lens = dlp_request_new_with_argid m cmd 0x20 lens

-- Bytes written into a block.
unfoldable pub overwrite : List ℕ → ℕ → List ℕ → Option (List ℕ)
overwrite block at bytes =
    if leb (at + length bytes) (length block)
    then some (take at block ++ bytes ++ drop (at + length bytes) block)
    else none

-- Bytes written into the data of the first argument, from its start.
unfoldable pub fill : List ℕ → DlpRequest → Option DlpRequest
fill bytes req = elim req.argv [
  | [] ↦ if length bytes == 0 then some req else none
  | arg ∷ args ↦ do
    data_ ← overwrite arg.data_ 0 bytes
    some (record req { argv = record arg { data_ = data_ } ∷ args })
]
