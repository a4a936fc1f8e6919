-- ===== src/Cmp/Tests.antt =====
-- A handheld that wakes the desktop at 38400 baud.
use pilot_link.Base.{ℕ, true, false, List, [], ◌∷◌, ◌++◌, some, ◌≡◌, refl, length}
use pilot_link.Base.Int.{pos, ltb_ℤ, int32}
use pilot_link.Buffer.Tests.{zeroed, zeroed-Ample}
use pilot_link.Macros.{get_byte, get_short, get_long}
use pilot_link.Cmp.{CmpData, Beneath, parse_cmp, cmp_bytes, cmp_rx_handshake}
use pilot_link.Cmp.Handshake.{Writes, answer, answer_code, cmp_rx_handshake-answer}

abbrev wakeup_packet : List ℕ
wakeup_packet = 1 ∷ 0 ∷ 1 ∷ 2 ∷ 0 ∷ 0 ∷ 0 ∷ 0 ∷ 0x96 ∷ 0 ∷ []

abbrev line : Beneath (List (List ℕ))
line = record {
  here = true;
  has_next = true;
  write = λ l bytes. (pos (length bytes), l ++ (bytes ∷ []));
  read = λ l n. (pos 10, wakeup_packet, l);
  flush = λ l. (pos 0, l);
  send_data = λ l. l;
  set_error = λ code l. l;
}

abbrev written : List (List ℕ) → List (List ℕ)
written l = l

line-Writes : Writes line written
line-Writes = record {
  here = refl;
  has_next = refl;
  writes = λ l bytes. (l ++ (bytes ∷ []), refl, refl);
  options = λ l. refl;
  errors = λ code l. refl;
}

abbrev unset : CmpData
unset = record { kind = 0; flags = 0; version = 0; baudrate = pos 0 }

abbrev handheld : CmpData
handheld = record { kind = 1; flags = 0; version = 0x0102; baudrate = pos 38400 }

handheld_test : parse_cmp wakeup_packet ≡ some handheld
unfolding parse_cmp get_byte get_short get_long int32
handheld_test = refl

cmp_rx_handshake-answer_example :
    (l' : List (List ℕ)) × (cmp_rx_handshake line zeroed
        (pos 57600)
        true
        (record { data_ = unset; low = [] })
      ≡ some (answer_code handheld, record { data_ = answer (pos 57600) true handheld; low = l' }))
    × (written l' ≡ cmp_bytes (answer (pos 57600) true handheld) ∷ [])
    × (ltb_ℤ (pos 38400) (answer (pos 57600) false handheld).baudrate ≡ false)
cmp_rx_handshake-answer_example =
    cmp_rx_handshake-answer line written line-Writes zeroed (pos 57600) true unset handheld
      wakeup_packet [] [] zeroed-Ample refl handheld_test
