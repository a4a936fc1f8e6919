-- ===== src/Slp/Loopback.antt =====
-- A frame that slp_tx sends, read by slp_rx.
use mathlib.Core.List.{append_assoc}
use mathlib.Core.Path.{subst}
use pilot_link.Base.{
  ℕ, suc, ◌+◌, ◌%◌, ◌^◌, ◌≤◌, ◌<◌, Bool, List, [], ◌∷◌, ◌++◌, some, ◌≡◌, refl, sym, ap, ◌∙◌, arith,
  length, take, drop, if◌then◌else◌, length-append, take-append_left, drop-append_left,
}
use pilot_link.Base.Int.{ℤ, pos}
use pilot_link.Buffer.{Buffer, Allocator, size_mod, pi_buffer_new}
use pilot_link.Buffer.Blocks.{IsValid, contents}
use pilot_link.Buffer.Append.{longer, pi_buffer_append_lem}
use pilot_link.Macros.{set_short}
use pilot_link.Slp.{SlpData, Link, header, packet, frame, frame_len, err_generic_memory}
use pilot_link.Slp.Crc.{crc16}
use pilot_link.Slp.Receive.{
  State, begin, signature_read, header_read, packet_read, footer_read, wait, step, find_signature,
  or_beyond, returned, rx_loop, hand_over, note, slp_rx, read_all, resume, act,
}
use pilot_link.Slp.Frame.{whole_header, check_header-frame, check_crc-frame}
use pilot_link.Slp.Pending.{Delivers, read_all_lem}

module _ {S : Type 0} (m : Allocator) (next : Link S) {pending : S → List ℕ}
    (d : Delivers next pending) where
  -- One round of the loop, where the bytes that its state asks for are there.
  round :
      (fuel len : ℕ) (buf : Buffer) (data_ : SlpData) (s : S) (state : State) (slp_buf : List ℕ)
      (n : ℕ) {state' : State} {slp_buf' : List ℕ} {n' : ℕ} (xs rest : List ℕ)
      → step len state slp_buf n ≡ wait state' (length xs) slp_buf' n'
      → length xs < fuel
      → pending s ≡ xs ++ rest
      → (s' : S) × (rx_loop m next (suc fuel) len buf data_ s state slp_buf n
          ≡ rx_loop m next fuel len buf data_ s' state' (slp_buf' ++ xs) n')
        × (pending s' ≡ rest)
  unfolding rx_loop act resume
  round fuel len buf data_ s state slp_buf n {state'} {slp_buf'} {n'} xs rest e h k =
      let (s', filled_, r) =
        read_all_lem m next d fuel s slp_buf' (length xs) h
          (subst (λ ys. length xs ≤ length ys) (sym k) (omega (arith, length-append xs rest))) in
      (
        s',
        ap
              (λ st. act m next buf data_ s st (λ st' expect sb n''.
                resume m next buf data_ (read_all m next fuel s sb expect)
                  (λ sb' s''. rx_loop m next fuel len buf data_ s'' st' sb' n'')))
              e
            ∙ ap
                (λ got.
                  resume m next buf data_ got
                    (λ sb' s''. rx_loop m next fuel len buf data_ s'' state' sb' n'))
                filled_
            ∙ ap (λ ys. rx_loop m next fuel len buf data_ s' state' (slp_buf' ++ ys) n')
                (ap (take (length xs)) k ∙ take-append_left xs rest),
        r ∙ ap (drop (length xs)) k ∙ drop-append_left xs rest,
      )

  abbrev pub heard : SlpData → SlpData → SlpData
  heard data_ sender =
      note m next data_ (sender.dest % 256) (sender.src % 256) (sender.kind % 256)
        (sender.txid % 256)

  last_round :
      (fuel len : ℕ) (buf : Buffer) (data_ sender : SlpData) (s : S) (p : List ℕ)
      → rx_loop m next (suc fuel) len buf data_ s footer_read (frame sender p) (length p)
        ≡ hand_over m next buf (heard data_ sender) s p
  unfolding rx_loop act step or_beyond
  last_round fuel len buf data_ sender s p = rw (check_crc-frame sender p) refl

  whole_frame :
      (fuel len : ℕ) (buf : Buffer) (data_ sender : SlpData) (s : S) (p rest : List ℕ)
      → length p ≤ len
      → len < 2 ^ 31
      → length p < 2 ^ 16
      → length p + 7 < fuel
      → pending s ≡ frame sender p ++ rest
      → (s' : S) × (rx_loop m next (suc (suc (suc (suc (suc fuel))))) len buf data_ s begin [] 0
          ≡ hand_over m next buf (heard data_ sender) s' p)
        × (pending s' ≡ rest)
  unfolding frame packet header set_short step find_signature or_beyond
  whole_frame fuel len buf data_ sender s p rest h k l f e =
      let crc = set_short (crc16 (packet sender p)) in
      let (s1, e1, r1) =
        round (suc (suc (suc (suc fuel)))) len buf data_ s begin [] 0 (0xbe ∷ 0xef ∷ 0xed ∷ [])
          (drop 3 (whole_header sender (length p)) ++ (p ++ crc ++ rest)) refl (omega arith) e in
      let (s2, e2, r2) =
        round (suc (suc (suc fuel))) len buf data_ s1 signature_read (0xbe ∷ 0xef ∷ 0xed ∷ []) 0
          (drop 3 (whole_header sender (length p))) (p ++ crc ++ rest) refl (omega arith) r1 in
      let (s3, e3, r3) =
        round (suc (suc fuel)) len buf data_ s2 header_read (whole_header sender (length p)) 0 p
          (crc ++ rest) (ap or_beyond (check_header-frame sender (length p) len h k l))
          (omega arith) (r2 ∙ append_assoc p crc rest) in
      let (s4, e4, r4) =
        round (suc fuel) len buf data_ s3 packet_read (whole_header sender (length p) ++ p)
          (length p) crc rest refl (omega arith) r3 in
      (s4, e1 ∙ e2 ∙ e3 ∙ e4 ∙ last_round fuel len buf data_ sender s4 p, r4)

  abbrev pub code_of : Bool → ℕ → ℤ
  code_of ok n = if ok then pos n else err_generic_memory

  handed_over :
      (buf : Buffer) (data_ : SlpData) (s : S) (p : List ℕ)
      → IsValid buf
      → buf.used + length p < size_mod
      → (ok : Bool) × (b' : Buffer) × (hand_over m next buf data_ s p
          ≡ returned (code_of ok (length p)) b' (some data_) s)
        × IsValid b'
        × (contents b' ≡ longer ok (contents buf) p)
  unfolding hand_over
  handed_over buf data_ s p v h =
      let (ok, b', e, v', held) = pi_buffer_append_lem m buf p v h in
      (ok, b', rw (hand_over, e) refl, v', held)

  -- A frame of at most len bytes, len below 2^31, at the front of what the layer below delivers is
  -- received, whatever the sizes of the reads: with memory for the frame and fuel for its bytes,
  -- slp_rx puts its payload behind what the caller's buffer holds and returns its size, or finds
  -- no memory and reports that; it notes the sender's fields and leaves what follows the frame.
  pub slp_rx-frame :
      (fuel len : ℕ) (buf : Buffer) (data_ sender : SlpData) (s : S) (p rest block : List ℕ)
      → m.malloc frame_len ≡ some block
      → IsValid buf
      → buf.used + length p < size_mod
      → length p ≤ len
      → len < 2 ^ 31
      → length p < 2 ^ 16
      → length p + 7 < fuel
      → pending s ≡ frame sender p ++ rest
      → (ok : Bool) × (b' : Buffer) × (s' : S) × (slp_rx m
            (suc (suc (suc (suc (suc fuel)))))
            (some data_)
            (some next)
            s
            buf
            len
          ≡ returned (code_of ok (length p)) b' (some (heard data_ sender)) s')
        × IsValid b'
        × (contents b' ≡ longer ok (contents buf) p)
        × (pending s' ≡ rest)
  unfolding slp_rx pi_buffer_new
  slp_rx-frame fuel len buf data_ sender s p rest block e v u h k l f q =
      let (s', got, r) = whole_frame fuel len buf data_ sender s p rest h k l f q in
      let (ok, b', e', v', held) = handed_over buf (heard data_ sender) s' p v u in
      (ok, b', s', rw (slp_rx, e) (got ∙ e'), v', held, r)
