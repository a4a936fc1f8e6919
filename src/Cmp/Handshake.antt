-- ===== src/Cmp/Handshake.antt =====
-- libpisock/cmp.c: what a wakeup packet is answered with.
use pilot_link.Base.{
  ℕ, zero, suc, Bool, true, false, not, List, [], ◌∷◌, ◌++◌, Option, some, ◌≡◌, refl, ap, ◌∙◌,
  arith, length, if◌then◌else◌, Bool-cases, inl, inr,
}
use pilot_link.Base.Int.{ℤ, pos, negsuc, is_neg, ltb_ℤ}
use pilot_link.Base.Partial.{◌>>=◌ as ◌>>?◌}
use pilot_link.Base.Run.{Run, and_then, ◌>>=◌, pure, change, ask, checked}
use pilot_link.Buffer.{Buffer, Allocator, pi_buffer_new}
use pilot_link.Buffer.Blocks.{Ample}
use pilot_link.Macros.{set_byte, set_short, set_long}
use pilot_link.Cmp.{
  CmpData, Beneath, Party, err_prot_incompatible, cmp_bytes, parse_cmp, err_sock_invalid, agreed,
  is_compatible, init_flags, reports, write, read, cmp_tx, cmp_rx, cmp_init, cmp_abort, agree,
  refuse, greet, proceed, hear, cmp_rx_handshake,
}

-- Layers below that write whole packets, with a record of them.
pub record Writes {L : Type 0} (lower : Beneath L) (log : L → List (List ℕ)) : Type 0 where
  pub here : lower.here ≡ true
  pub has_next : lower.has_next ≡ true
  pub writes :
      (l : L) (bytes : List ℕ)
      → (l' : L) × (lower.write l bytes ≡ (pos (length bytes), l'))
        × (log l' ≡ log l ++ (bytes ∷ []))
  pub options : (l : L) → log (lower.send_data l) ≡ log l
  pub errors : (code : ℤ) (l : L) → log (lower.set_error code l) ≡ log l

-- An init packet with a rate, and an abort packet of an incompatible version.
abbrev pub init_of : CmpData → (baudrate : ℤ) → CmpData
init_of d rate = record { kind = 2; flags = init_flags rate; version = d.version; baudrate = rate }

abbrev pub abort_of : CmpData → CmpData
abort_of d = record d { kind = 3; flags = 0x80 }

-- What the handheld is told.
abbrev pub answer : (establishrate : ℤ) → (establishhighrate : Bool) → (peer : CmpData) → CmpData
answer establishrate high peer =
    if is_compatible peer.version
    then init_of peer (agreed establishrate high peer.baudrate)
    else abort_of peer

abbrev pub answer_code : (peer : CmpData) → ℤ
answer_code peer = if is_compatible peer.version then pos 0 else err_prot_incompatible

length-cmp_bytes : (d : CmpData) → length (cmp_bytes d) ≡ 10
unfolding cmp_bytes set_byte set_short set_long
length-cmp_bytes d = refl

-- A rate that was not raised.
ltb_ℤ-self : (a : ℤ) → ltb_ℤ a a ≡ false
unfolding ltb_ℤ
ltb_ℤ-self (pos n) = ground arith
ltb_ℤ-self (negsuc n) = ground arith

agreed-low :
    (establishrate baudrate : ℤ) → ltb_ℤ baudrate (agreed establishrate false baudrate) ≡ false
unfolding agreed
agreed-low (negsuc zero) baudrate = ltb_ℤ-self baudrate
agreed-low (negsuc (suc n)) baudrate = elim (Bool-cases (ltb_ℤ baudrate (negsuc (suc n)))) [
  | inl e ↦ rw e (ltb_ℤ-self baudrate)
  | inr e ↦ rw (e, e) refl
]
agreed-low (pos n) baudrate = elim (Bool-cases (ltb_ℤ baudrate (pos n))) [
  | inl e ↦ rw e (ltb_ℤ-self baudrate)
  | inr e ↦ rw (e, e) refl
]

not_raised :
    (establishrate : ℤ) (peer : CmpData)
    → ltb_ℤ peer.baudrate (answer establishrate false peer).baudrate ≡ false
not_raised establishrate peer = elim (Bool-cases (is_compatible peer.version)) [
  | inl e ↦ rw e (agreed-low establishrate peer.baudrate)
  | inr e ↦ rw e (ltb_ℤ-self peer.baudrate)
]

-- The buffer that pi_buffer_new makes of a block.
abbrev made : List ℕ → Option Buffer
made block = some (record { bytes = some block; allocated = 10; used = 0 })

module _ {L : Type 0} (lower : Beneath L) (log : L → List (List ℕ)) (w : Writes lower log) where
  -- cmp_tx
  cmp_tx-Writes :
      (d : CmpData) (l : L)
      → (l' : L) × (cmp_tx lower (record { data_ = d; low = l })
          ≡ some (pos 0, record { data_ = d; low = l' }))
        × (log l' ≡ log l ++ (cmp_bytes d ∷ []))
  unfolding cmp_tx ◌>>=◌ change ask pure write
  cmp_tx-Writes d l =
      let (l', e, h) = w.writes (lower.send_data l) (cmp_bytes d) in
      (
        l',
        rw (w.here, w.has_next, e ∙ ap (λ n. (pos n, l')) (length-cmp_bytes d)) refl,
        h ∙ ap (λ p. p ++ (cmp_bytes d ∷ [])) (w.options l),
      )

  with_prot-here :
      (k : Run (Party L) ℤ) (s : Party L) (h : Bool)
      → h ≡ true
      → (if not h then reports lower err_sock_invalid else k) s ≡ k s
  with_prot-here k s h e = rw e refl

  cmp_init-Writes :
      (d : CmpData) (rate : ℤ) (l : L)
      → (l' : L) × (cmp_init lower rate (record { data_ = d; low = l })
          ≡ some (pos 0, record { data_ = init_of d rate; low = l' }))
        × (log l' ≡ log l ++ (cmp_bytes (init_of d rate) ∷ []))
  unfolding cmp_init ◌>>=◌ change
  cmp_init-Writes d rate l =
      let (l', e, h) = cmp_tx-Writes (init_of d rate) l in
      (l', with_prot-here _ _ lower.here w.here ∙ e, h)

  cmp_abort-Writes :
      (d : CmpData) (l : L)
      → (l' : L) × (cmp_abort lower 0x80 (record { data_ = d; low = l })
          ≡ some (pos 0, record { data_ = abort_of d; low = l' }))
        × (log l' ≡ log l ++ (cmp_bytes (abort_of d) ∷ []))
  unfolding cmp_abort ◌>>=◌ change
  cmp_abort-Writes d l =
      let (l', e, h) = cmp_tx-Writes (abort_of d) l in
      (l', with_prot-here _ _ lower.here w.here ∙ e, h)

  agree-Writes :
      (d : CmpData) (rate : ℤ) (l : L)
      → (l' : L) × (agree lower rate (record { data_ = d; low = l })
          ≡ some (pos 0, record { data_ = init_of d rate; low = l' }))
        × (log l' ≡ log l ++ (cmp_bytes (init_of d rate) ∷ []))
  unfolding agree ◌>>=◌ change pure
  agree-Writes d rate l =
      let (l', e, h) = cmp_init-Writes (record d { baudrate = rate }) rate l in
      (l', ap (λ o. and_then o (λ n. pure (if is_neg n then n else pos 0))) e, h)

  refuse-Writes :
      (d : CmpData) (l : L)
      → (l' : L) × (refuse lower (record { data_ = d; low = l })
          ≡ some (err_prot_incompatible, record { data_ = abort_of d; low = l' }))
        × (log l' ≡ log l ++ (cmp_bytes (abort_of d) ∷ []))
  unfolding refuse ◌>>=◌ change pure reports
  refuse-Writes d l =
      let (l', e, h) = cmp_abort-Writes d l in
      (
        lower.set_error err_prot_incompatible l',
        ap (λ o. and_then o (λ unused. reports lower err_prot_incompatible)) e,
        w.errors err_prot_incompatible l' ∙ h,
      )

  greet-Writes :
      (establishrate : ℤ) (high : Bool) (d : CmpData) (l : L)
      → (l' : L) × (greet lower establishrate high (record { data_ = d; low = l })
          ≡ some (answer_code d, record { data_ = answer establishrate high d; low = l' }))
        × (log l' ≡ log l ++ (cmp_bytes (answer establishrate high d) ∷ []))
  unfolding greet ◌>>=◌ ask
  greet-Writes establishrate high d l = elim (Bool-cases (is_compatible d.version)) [
    | inl e ↦ rw e (agree-Writes d (agreed establishrate high d.baudrate) l)
    | inr e ↦ rw e (refuse-Writes d l)
  ]

  cmp_rx-packet :
      (d peer : CmpData) (packet : List ℕ) (l l' : L)
      → lower.read l 10 ≡ (pos 10, packet, l')
      → parse_cmp packet ≡ some peer
      → cmp_rx lower (some []) 10 (record { data_ = d; low = l })
        ≡ some ((pos 0, some packet), record { data_ = peer; low = l' })
  unfolding cmp_rx ◌>>=◌ change pure read checked
  cmp_rx-packet d peer packet l l' e p = rw (w.here, w.has_next, e, p) refl

  -- cmp_rx_handshake, where the layers below hand over a packet of ten bytes, write whole packets and the
  -- allocator refuses nothing: whatever the packet holds, one packet is written and kept as the
  -- protocol's data. To a version 1 it is an init packet with the agreed rate, and 0 is
  -- returned; to any other it is an abort packet with the flag 0x80, and the code says that the two are
  -- incompatible. A rate above the handheld's is agreed on only where the caller asks for it.
  pub cmp_rx_handshake-answer :
      (m : Allocator) (establishrate : ℤ) (high : Bool) (d peer : CmpData) (packet : List ℕ)
      (l l1 : L)
      → Ample m
      → lower.read l 10 ≡ (pos 10, packet, l1)
      → parse_cmp packet ≡ some peer
      → (l' : L) × (cmp_rx_handshake lower m establishrate high (record { data_ = d; low = l })
          ≡ some (answer_code peer, record { data_ = answer establishrate high peer; low = l' }))
        × (log l' ≡ log l1 ++ (cmp_bytes (answer establishrate high peer) ∷ []))
        × (ltb_ℤ peer.baudrate (answer establishrate false peer).baudrate ≡ false)
  unfolding cmp_rx_handshake pi_buffer_new ◌>>=◌
  cmp_rx_handshake-answer m establishrate high d peer packet l l1 k e p =
      let (block, e') = k 10 in
      let (l', e2, h) = greet-Writes establishrate high peer l1 in
      (
        l',
        with_prot-here _ _ lower.here w.here
            ∙ ap (λ o. hear lower o establishrate high (record { data_ = d; low = l }))
                (ap (λ o. o >>? made) e')
            ∙ ap (λ o. and_then o (λ r. proceed lower (r.0) (greet lower establishrate high)))
                (cmp_rx-packet d peer packet l l1 e p)
            ∙ e2,
        h,
        not_raised establishrate peer,
      )
