-- ===== src/Padp/Delivered.antt =====
-- A message whose packets come in order, received.
use pilot_link.Base.{
  ℕ, zero, suc, ◌+◌, ◌-◌, ◌==◌, ◌≤◌, ◌<◌, Bool, true, false, List, [], ◌∷◌, ◌++◌, some, ◌≡◌, refl,
  sym, ap, ◌∙◌, arith, length, take, leb, leb-true, ltb-false, if◌then◌else◌,
}
use mathlib.Core.List.{append-nil}
use pilot_link.AppInfo.RoundTrip.{read_block-exact}
use pilot_link.Buffer.Append.{pi_buffer_append-Ample}
use pilot_link.Base.Int.{ℤ, pos, negsuc}
use pilot_link.Base.Run.{Run, ◌>>=◌, pure, change, ask, checked}
use pilot_link.AppInfo.{read_block}
use pilot_link.Buffer.{Buffer, Allocator, size_mod}
use pilot_link.Buffer.Blocks.{IsValid, Ample, contents}
use pilot_link.Macros.{get_byte}
use pilot_link.Padp.{
  slp_type, slp_dest, slp_src, slp_txid, dev_timeout, lowered, Padp, Lower, Side, SockOpt,
  header_of, is_long, is_first, set_opt, write, read, padp_sendack, ack_bytes, acked,
}
use pilot_link.Padp.Receive.{
  whole, arrived, verdict, wanted, adjusted, more_of, read_packet, time, timed_out, judged, sorted,
  try_read, wait_for, appended, put_behind, next_of, segments,
}
use pilot_link.Padp.Fragments.{data_header, short_packet, is_first-flags_of, is_last-flags_of}

-- A layer below that hands out, one at a read, the packets that are under way, sent with `txid`, and
-- whose clock, read twice in a row, has not moved on by more than thirty seconds.
pub record Hands {L : Type 0} (lower : Lower L) (queue : L → List (List ℕ)) (txid : ℕ)
    : Type 0 where
  pub present : lower.present ≡ true
  pub prompt : (l : L) → (lower.time (lower.time l).1).0 ≤ (lower.time l).0 + 30
  pub reads :
      (l : L) (n : ℕ) (p : List ℕ) (ps : List (List ℕ))
      → queue l ≡ p ∷ ps
      → length p ≤ n
      → (l' : L) × (lower.read l n ≡ (pos (length p), p, l'))
        × (queue l' ≡ ps)
        × (lower.last_type l' ≡ 2)
        × (lower.last_txid l' ≡ txid)
  pub writes : (l : L) (bytes : List ℕ) → queue (lower.write l bytes).1 ≡ queue l
  pub options :
      (l : L) (option : SockOpt) (value : ℕ) → queue (lower.set_option option value l) ≡ queue l
  pub times : (l : L) → queue (lower.time l).1 ≡ queue l

-- The first packet comes before all of the message.
abbrev pub Start : (first : Bool) → (count : ℕ) → Type 0
Start true count = count ≡ 0
Start false count = Unit {0}

pub length-take-part : (n : ℕ) (xs : List ℕ) → length (take n xs) ≤ length xs
length-take-part zero xs = omega arith
length-take-part (suc n) [] = omega arith
length-take-part (suc n) (x ∷ xs) = omega (arith, length-take-part n xs)

module _ {L : Type 0} (m : Allocator) (lower : Lower L) (queue : L → List (List ℕ)) (txid : ℕ)
    (v : Hands lower queue txid) where
  abbrev pub at_low : Side L → L → Side L
  at_low s l = record s { low = l }

  read_packet-packet :
      (fuel : ℕ) (s : Side L) (padp : Padp) (payload : List ℕ) (ps : List (List ℕ))
      → 2 ≤ fuel
      → queue s.low ≡ short_packet padp payload ∷ ps
      → length payload ≤ 1024
      → is_long padp.flags ≡ false
      → let p = short_packet padp payload in
        (l' : L) × (read_packet m lower fuel [] 0 4 s ≡ some (whole p (length p) 4, at_low s l'))
        × (queue l' ≡ ps)
        × (lower.last_type l' ≡ 2)
        × (lower.last_txid l' ≡ txid)
  unfolding read_packet read more_of adjusted get_byte ◌>>=◌ checked pure
  read_packet-packet zero s padp payload ps f q h long = absurd (omega arith)
  read_packet-packet (suc zero) s padp payload ps f q h long = absurd (omega arith)
  read_packet-packet (suc (suc fuel)) s padp payload ps f q h long =
      let p = short_packet padp payload in
      let (l', e, q', k, t) = v.reads s.low 1028 p ps q (omega arith) in
      let total : 0 + length p ≡ length p = omega arith in
      let enough : leb 4 (length p) ≡ true = leb-true 4 (length p) (omega arith) in
      (l', rw (e, total, enough, long, enough) refl, q', k, t)

  -- Before the end of the time nothing is timed out, whether or not the socket's time-outs count.
  timed_out-early :
      (honor : Bool) (endtime : ℕ) (s : Side L)
      → (lower.time s.low).0 ≤ endtime
      → (l' : L) × (timed_out m lower honor endtime s ≡ some (false, at_low s l'))
        × (queue l' ≡ queue s.low)
  unfolding timed_out time ◌>>=◌ pure
  timed_out-early false endtime s h = (s.low, refl, refl)
  timed_out-early true endtime s h = (
    (lower.time s.low).1,
    ap (λ late. some (late, at_low s (lower.time s.low).1)) (ltb-false endtime _ h),
    v.times s.low,
  )

  -- Waiting for a packet that is wanted.
  pub wait_for-packet :
      (fuel : ℕ) (first honor : Bool) (endtime : ℕ) (s : Side L) (padp : Padp) (payload : List ℕ)
      (ps : List (List ℕ))
      → 3 ≤ fuel
      → (lower.time s.low).0 ≤ endtime
      → queue s.low ≡ short_packet padp payload ∷ ps
      → length payload ≤ 1024
      → is_long padp.flags ≡ false
      → header_of (short_packet padp payload) ≡ some padp
      → verdict first txid 2 txid padp ≡ wanted
      → s.data_.txid ≡ txid
      → let p = short_packet padp payload in
        (l' : L) × (wait_for m lower fuel first honor endtime s
          ≡ some (arrived padp p (length p) 4, at_low s l'))
        × (queue l' ≡ ps)
  unfolding wait_for try_read set_opt sorted judged ◌>>=◌ checked pure change ask
  wait_for-packet zero first honor endtime s padp payload ps f early q h long e w t =
      absurd (omega arith)
  wait_for-packet (suc fuel) first honor endtime s padp payload ps f early q h long e w t =
      let (l0, in_time, q0) = timed_out-early honor endtime s early in
      let wait : ℕ = if honor then 32000 else 0 in
      let s1 : Side L = lowered lower (lower.set_option dev_timeout wait) (at_low s l0) in
      let (l', read_, q', kind, last) =
        read_packet-packet fuel s1 padp payload ps (omega arith)
          (v.options l0 dev_timeout wait ∙ q0 ∙ q) h long in
      (l', rw (in_time, read_, e, kind, last, t, w) refl, q')

  -- What changes under an acknowledgement, which the next packets do not depend on.
  pub record Kept (s s' : Side L) : Type 0 where
    pub same_txid : s'.data_.txid ≡ s.data_.txid
    pub same_next : s'.data_.next_txid ≡ s.data_.next_txid
    pub same_queue : queue s'.low ≡ queue s.low

  acked-Kept :
      (id : ℕ) (padp : Padp) (result : ℤ) (s : Side L) → Kept s (acked lower id padp result s)
  unfolding acked
  acked-Kept id padp (pos n) s = record { same_txid = refl; same_next = refl; same_queue = refl }
  acked-Kept id padp (negsuc n) s = record { same_txid = refl; same_next = refl; same_queue = refl }

  padp_sendack-Kept :
      (id : ℕ) (padp : Padp) (s : Side L)
      → (result : ℤ) × (s' : Side L) × (padp_sendack lower id padp s ≡ some (result, s'))
        × Kept s s'
  unfolding padp_sendack set_opt write ◌>>=◌ pure change
  padp_sendack-Kept id padp s =
      let l0 = lower.set_option slp_type 2 s.low in
      let l1 = lower.set_option slp_dest 3 l0 in
      let l2 = lower.set_option slp_src 3 l1 in
      let l3 = lower.set_option slp_txid id l2 in
      let w = lower.write l3 (ack_bytes padp) in
      let s1 = at_low s w.1 in
      let kept = acked-Kept id padp w.0 s1 in
      (
        w.0,
        acked lower id padp w.0 s1,
        rw (v.present) refl,
        record {
          same_txid = kept.same_txid;
          same_next = kept.same_next;
          same_queue =
              kept.same_queue
              ∙ v.writes l3 (ack_bytes padp)
              ∙ v.options l2 slp_txid id
              ∙ v.options l1 slp_src 3
              ∙ v.options l0 slp_dest 3
              ∙ v.options s.low slp_type 2;
        },
      )

  payload-exact : (payload : List ℕ) → read_block (length payload) payload ≡ some payload
  payload-exact payload =
      ap (read_block (length payload)) (sym (append-nil payload))
      ∙ read_block-exact (length payload) payload [] refl

  put_behind-payload :
      (go : ℕ → Buffer → Run (Side L) (ℤ × Buffer)) (padp : Padp) (payload : List ℕ) (offset : ℕ)
      (b : Buffer) (s : Side L)
      → Ample m
      → IsValid b
      → length (contents b) + length payload < size_mod
      → (b' : Buffer) × (put_behind m lower go true
            (short_packet padp payload)
            (length (short_packet padp payload))
            4
            offset
            b
            s
          ≡ go (offset + length payload) b' s)
        × IsValid b'
        × (contents b' ≡ contents b ++ payload)
  unfolding put_behind appended ◌>>=◌ checked
  put_behind-payload go padp payload offset b s k w h =
      let (b', e, w', held) = pi_buffer_append-Ample m b payload k w h in
      let size : length (short_packet padp payload) - 4 ≡ length payload = omega arith in
      (b', rw (size, payload-exact payload, e) refl, w', held)

  in_order :
      (first : Bool) (count : ℕ) (rest : List ℕ)
      → Start first count
      → ((if is_first (data_header first count rest)
            then 0
            else (data_header first count rest).size)
          == count)
        ≡ true
  in_order true count rest h = rw (is_first-flags_of true (leb (length rest) 1024), h) refl
  in_order false count rest h = rw (is_first-flags_of false (leb (length rest) 1024)) (ground arith)

  -- One round of the loop over the packets, up to what follows it.
  pub round :
      (fuel : ℕ) (honor first : Bool) (count : ℕ) (rest : List ℕ) (b : Buffer) (s : Side L)
      → Ample m
      → Start first count
      → IsValid b
      → length (contents b) + length rest < size_mod
      → let padp = data_header first count rest in
        let payload = take 1024 rest in
        let p = short_packet padp payload in
        (b' : Buffer) × (s' : Side L) × (segments m lower
            (suc fuel)
            honor
            count
            b
            (arrived padp p (length p) 4)
            s
          ≡ next_of m lower
              (segments m lower fuel honor)
              fuel
              honor
              (leb (length rest) 1024)
              (count + length payload)
              b'
              s')
        × IsValid b'
        × (contents b' ≡ contents b ++ payload)
        × Kept s s'
  unfolding segments ◌>>=◌ ask
  round fuel honor first count rest b s k o w h =
      let padp = data_header first count rest in
      let payload = take 1024 rest in
      let last = is_last-flags_of first (leb (length rest) 1024) in
      let (code, s', e, kept) = padp_sendack-Kept s.data_.txid padp s in
      let go = next_of m lower (segments m lower fuel honor) fuel honor (leb (length rest) 1024) in
      let (b', e', w', held) =
        put_behind-payload go padp payload count b s' k w
          (omega (arith, length-take-part 1024 rest)) in
      (b', s', rw (e, in_order first count rest o, last) e', w', held, kept)
