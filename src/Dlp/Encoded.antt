-- ===== src/Dlp/Encoded.antt =====
-- Encoded arguments: their size, and what reading them back gives.
use pilot_link.Base.{
  ℕ, zero, suc, ◌^◌, ◌<◌, Bool, true, false, List, [], ◌∷◌, ◌++◌, none, some, ◌≡◌, refl, ap, ◌∙◌,
  arith, length, All, length-append, drop-append_left,
}
use mathlib.Core.List.{append_assoc}
use pilot_link.Buffer.{Allocator}
use pilot_link.Buffer.Blocks.{Ample}
use pilot_link.Macros.{get_byte, get_short, get_long, set_byte, set_short, set_long}
use pilot_link.AppInfo.RoundTrip.{read_block-exact}
use pilot_link.Dlp.Args.{
  DlpArg, Form, tiny, short, long, form, written_form, header_size, arg_len_sum, or_bit, arg_header,
  encode_args, Parsed, head, parse_head, head_by, long_head, short_head, tiny_head, parse_args,
  with_head, with_new, dlp_arg_new, data_block, with_arg,
}

length-arg_header : (f : Form) (id len : ℕ) → length (arg_header f id len) ≡ header_size f
unfolding arg_header header_size set_byte set_short set_long
length-arg_header tiny id len = refl
length-arg_header short id len = refl
length-arg_header long id len = refl

-- The header that is written is the one that was counted.
written_form-form : (id len : ℕ) → written_form id len ≡ form id len
unfolding written_form form
written_form-form id len = refl

-- The bytes of the encoded arguments are as many as dlp_arg_len counts before it is cut to an int.
pub length-encode_args : (args : List DlpArg) → length (encode_args args) ≡ arg_len_sum args
unfolding encode_args arg_len_sum
length-encode_args [] = refl
length-encode_args (arg ∷ args) =
    let n = length arg.data_ in
    let f = written_form arg.id n in
    omega (
      arith,
      length-append (arg_header f arg.id n) (arg.data_ ++ encode_args args),
      length-append arg.data_ (encode_args args),
      length-arg_header f arg.id n,
      length-encode_args args,
      ap header_size (written_form-form arg.id n),
    )

-- Ids and lengths that an encoding has room for; the long form where the device reads it.
abbrev pub Fits : Bool → ℕ → ℕ → Type 0
Fits true id len = (id < 64) × (len < 2 ^ 32)
Fits false id len = (id < 64) × (len < 0xffff)

parse_head-arg_header :
    (large : Bool) (id len : ℕ) (rest : List ℕ)
    → Fits large id len
    → parse_head large (arg_header (written_form id len) id len ++ rest) ≡ some (head id len rest)
unfolding parse_head head_by long_head short_head tiny_head arg_header or_bit written_form set_byte
    set_short set_long get_byte get_short get_long
parse_head-arg_header true id len rest h = ground arith
parse_head-arg_header false id len rest h = ground arith

pub dlp_arg_new-Ample :
    (m : Allocator) (id len : ℕ)
    → Ample m
    → (block : List ℕ) × (dlp_arg_new m id len ≡ some (record { id = id; data_ = block }))
      × (length block ≡ len)
unfolding dlp_arg_new data_block
dlp_arg_new-Ample m id zero k = let (struct, e) = k 24 in ([], rw e refl, refl)
dlp_arg_new-Ample m id (suc len) k =
    let (struct, e) = k 24 in
    let (block, e') = k (suc len) in (block, rw (e, e') refl, m.malloc_size (suc len) block e')

parse_one :
    (m : Allocator) (large : Bool) (arg : DlpArg) (count : ℕ) (rest : List ℕ) (more : Parsed)
    → Ample m
    → Fits large arg.id (length arg.data_)
    → parse_args m large count rest ≡ some more
    → parse_args m large (suc count) (
        arg_header (written_form arg.id (length arg.data_)) arg.id (length arg.data_)
        ++ (arg.data_ ++ rest))
      ≡ some (with_arg arg more)
unfolding parse_args with_head with_new
parse_one m large arg count rest more k h e =
    let n = length arg.data_ in
    let (block, e', l) = dlp_arg_new-Ample m arg.id n k in
    rw
      (
        parse_head-arg_header large arg.id n (arg.data_ ++ rest) h,
        e',
        read_block-exact n arg.data_ rest refl,
        drop-append_left arg.data_ rest,
        e,
      )
      refl

-- Arguments, each with an id below 64 and a length that its form can hold, are read back from their
-- encoding, whatever follows it, where the allocator refuses nothing; lengths from 65535 on want a
-- device of version 1.4.
pub parse_args-encode_args :
    (m : Allocator) (large : Bool) (args : List DlpArg) (rest : List ℕ)
    → Ample m
    → All (λ arg. Fits large arg.id (length arg.data_)) args
    → parse_args m large (length args) (encode_args args ++ rest)
      ≡ some (record { args = args; error = none })
unfolding parse_args encode_args
parse_args-encode_args m large [] rest k h = refl
parse_args-encode_args m large (arg ∷ args) rest k h =
    let n = length arg.data_ in
    let start = arg_header (written_form arg.id n) arg.id n in
    ap (parse_args m large (suc (length args))) (
      append_assoc start (arg.data_ ++ encode_args args) rest
      ∙ ap (λ bytes. start ++ bytes) (append_assoc arg.data_ (encode_args args) rest))
    ∙ parse_one m large arg (length args) (encode_args args ++ rest) _ k (h.0)
        (parse_args-encode_args m large args rest k (h.1))
