-- ===== src/Slp/Tests.antt =====
-- Frames over a link that hands out one byte at a time.
use pilot_link.Base.{
  ℕ, zero, suc, ◌≤◌, ◌<◌, Bool, List, [], ◌∷◌, ◌++◌, some, ◌≡◌, refl, arith, length, take, drop,
  replicate,
}
use pilot_link.Base.Int.{pos}
use pilot_link.Buffer.{Buffer}
use pilot_link.Buffer.Blocks.{IsValid, contents}
use pilot_link.Buffer.Append.{longer}
use pilot_link.Buffer.Tests.{zeroed, small, small-IsValid}
use pilot_link.Slp.{SlpData, Link, frame}
use pilot_link.Slp.Crc.{crc16, crc_loop, crc_byte, crc_bit}
use pilot_link.Slp.Receive.{returned, slp_rx}
use pilot_link.Slp.Pending.{Delivers}
use pilot_link.Slp.Loopback.{code_of, heard, slp_rx-frame}

abbrev one_of : ℕ → ℕ
one_of zero = 0
one_of (suc n) = 1

-- The bytes under way.
abbrev wire : Link (List ℕ)
wire = record {
  write = λ s bytes. (pos (length bytes), s ++ bytes);
  read = λ s n. (pos (one_of n), take (one_of n) s, drop (one_of n) s);
}

one_of-lt : (n : ℕ) → 0 < n → 0 < one_of n
one_of-lt zero h = absurd (omega arith)
one_of-lt (suc n) h = omega arith

one_of-le : (n : ℕ) → one_of n ≤ n
one_of-le zero = omega arith
one_of-le (suc n) = omega arith

wire-Delivers : Delivers wire (λ s. s)
wire-Delivers = record {
  got = λ s n. one_of n;
  some_of = λ s n h k. one_of-lt n h;
  at_most = λ s n. one_of-le n;
  code = λ s n h. refl;
  bytes = λ s n h. refl;
  rest = λ s n h. refl;
}

abbrev station : SlpData
station = record {
  dest = 3;
  last_dest = 0;
  src = 3;
  last_src = 0;
  kind = 2;
  last_kind = 0;
  txid = 0xff;
  last_txid = 0;
}

abbrev hello : List ℕ
hello = 104 ∷ 105 ∷ []

-- The check value of the polynomial 0x1021 from 0.
crc_check : crc16 (49 ∷ 50 ∷ 51 ∷ 52 ∷ 53 ∷ 54 ∷ 55 ∷ 56 ∷ 57 ∷ []) ≡ 0x31c3
unfolding crc16 crc_loop crc_byte crc_bit
crc_check = refl

slp_rx-frame_example :
    (ok : Bool) × (b' : Buffer) × (s' : List ℕ) × (slp_rx zeroed 17
        (some station)
        (some wire)
        (frame station hello ++ (1 ∷ 2 ∷ []))
        small
        64
      ≡ returned
          (code_of zeroed wire wire-Delivers ok 2)
          b'
          (some (heard zeroed wire wire-Delivers station station))
          s')
    × IsValid b'
    × (contents b' ≡ longer ok (contents small) hello)
    × (s' ≡ 1 ∷ 2 ∷ [])
slp_rx-frame_example =
    slp_rx-frame zeroed wire wire-Delivers 12 64 small station station
      (frame station hello ++ (1 ∷ 2 ∷ [])) hello (1 ∷ 2 ∷ []) (replicate 65547 0) refl
      small-IsValid (omega arith) (omega arith) (omega arith) (omega arith) (omega arith) refl
