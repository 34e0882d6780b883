-- ===== src/TcpReceiver/Decode.antt =====
-- Where a segment's payload goes: sequence numbers decoded to stream indices.
use cs_144_minnow_tcp.Reassembler.Segments.{inside}
use cs_144_minnow_tcp.Base.{
  ◌||◌, ◌&&◌, ltb, ℕ, suc, ◌+◌, ◌-◌, ◌^◌, ◌≤◌, ◌<◌, ◌≡◌, inl, inr, refl, sym, ap, ap₂, ◌∙◌, subst,
  Bool, true, false, ◌&&◌, ◌||◌, ◌==◌, ==_iff, some, arith, length, mod64, if◌then◌else◌, sub64,
}
use cs_144_minnow_tcp.Wrap32.{Wrap32, IsWord, wrap, unwrap, distance}
use cs_144_minnow_tcp.Wrap32.Nearest.{distance_bound, unwrap-wrap}
use cs_144_minnow_tcp.Reassembler.{insert}
use cs_144_minnow_tcp.Reassembler.Flush.{window_end}
use cs_144_minnow_tcp.Reassembler.Insert.{insert-Inserted, received, insert_end, insert_refused}
use cs_144_minnow_tcp.Messages.{TcpSenderMessage}
use cs_144_minnow_tcp.TcpReceiver.{TcpReceiver, stream_index, receive}
use cs_144_minnow_tcp.TcpReceiver.Accept.{IsValid, HasRoom}
use cs_144_minnow_tcp.TcpReceiver.Receive.{receive_known}

index_of :
    (u n : ℕ) (syn : Bool)
    → n < mod64
    → syn ≡ (n == 0)
    → u ≡ n
    → (if syn then u else sub64 u 1) ≡ n - 1
index_of u n true hn h e = omega (arith, (==_iff n 0).0 (sym h))
index_of u n false hn h e = ground arith

near_upper : (c n : ℕ) → distance c n < 2 ^ 31 → n < c + 2 ^ 31
near_upper c n h = distance_bound c n (2 ^ 31) h

-- The absolute number `n` of a segment, with the SYN at 0 and byte `i` at `i + 1`, decodes to the
-- index of the payload's first byte.
stream_index-wrap :
    (z : Wrap32) (n checkpoint : ℕ) (msg : TcpSenderMessage)
    → IsWord z
    → n < mod64
    → checkpoint < mod64
    → distance checkpoint n < 2 ^ 31
    → msg.seqno ≡ wrap n z
    → msg.syn ≡ (n == 0)
    → stream_index z checkpoint msg ≡ n - 1
unfolding stream_index
stream_index-wrap z n c msg hz hn hc near e syn =
    index_of (unwrap msg.seqno z c) n msg.syn hn syn
      (ap (λ w. unwrap w z c) e ∙ unwrap-wrap n z c hz hn hc near)

-- For a valid, connected receiver whose stream is more than a round short of 2 ^ 64, a segment
-- without RST that the peer numbered `n` (SYN exactly at 0), within half a round of the bytes
-- received, goes to the reassembler at stream index `n - 1`, and the indices received are then
-- those before and those of the payload in the window.
pub receive-decodes :
    (t : TcpReceiver) (z : Wrap32) (n : ℕ) (msg : TcpSenderMessage)
    → IsValid t
    → t.isn ≡ some z
    → HasRoom t msg
    → n < mod64
    → distance t.reassembler.output.bytes_pushed n < 2 ^ 31
    → msg.seqno ≡ wrap n z
    → msg.syn ≡ (n == 0)
    → msg.rst ≡ false
    → let r = t.reassembler in
      (receive t msg ≡ record { reassembler = insert r (n - 1) msg.payload msg.fin; isn = some z })
      × ((i : ℕ)
          → received (receive t msg).reassembler i
            ≡ (received r i || (inside (n - 1) msg.payload i && ltb i (window_end r.output))))
receive-decodes t z n msg v known room hn near e syn plain =
    let r = t.reassembler in
    let at =
      stream_index-wrap z n r.output.bytes_pushed msg (v.isn_word z known) hn
        v.reassembler_valid.output_valid.pushed_fits near e syn in
    let next =
      receive_known t z msg known plain
      ∙ ap (λ k. record { reassembler = insert r k msg.payload msg.fin; isn = some z }) at in
    (
      next,
      λ i.
          ap (λ (u : TcpReceiver). received u.reassembler i) next
          ∙ (insert-Inserted r (n - 1) msg.payload msg.fin v.reassembler_valid
                (inr (omega (arith, near_upper r.output.bytes_pushed n near)))).cover
              i,
    )

near_zero : (k : ℕ) → k < 2 ^ 31 → distance k 0 < 2 ^ 31
unfolding distance
near_zero k h = ground arith

zero-wrap : (z : Wrap32) → IsWord z → z ≡ wrap 0 z
unfolding wrap
zero-wrap z h = ground arith

closes_at :
    (closed seen : Bool) (pushed end : ℕ)
    → seen ≡ true
    → pushed ≡ end
    → (closed || (seen && pushed == end)) ≡ true
closes_at true seen pushed end h e = refl
closes_at false seen pushed end h e = ground arith

-- A segment at the initial sequence number without a SYN.
module _ (t : TcpReceiver) (z : Wrap32) (msg : TcpSenderMessage) (v : IsValid t)
    (known : t.isn ≡ some z) (early : t.reassembler.output.bytes_pushed < 2 ^ 31)
    (at_isn : msg.seqno ≡ z) (no_syn : msg.syn ≡ false) (last : msg.fin ≡ true)
    (plain : msg.rst ≡ false) where
  bad_index : stream_index z t.reassembler.output.bytes_pushed msg ≡ mod64 - 1
  unfolding stream_index
  bad_index =
      let k = t.reassembler.output.bytes_pushed in
      let hz = v.isn_word z known in
      ap₂ (λ w (b : Bool). let u = unwrap w z k in if b then u else sub64 u 1)
        (at_isn ∙ zero-wrap z hz) no_syn
      ∙ ap (λ u. sub64 u 1) (unwrap-wrap 0 z k hz (omega arith) (omega arith) (near_zero k early))

  refused :
      receive t msg
      ≡ record { reassembler = insert t.reassembler (mod64 - 1) msg.payload true; isn = some z }
  refused =
      receive_known t z msg known plain
      ∙ ap₂ (λ k b. record { reassembler = insert t.reassembler k msg.payload b; isn = some z })
          bad_index last

  -- For a valid, connected receiver with fewer than 2 ^ 31 bytes, a FIN without SYN or RST at the
  -- initial sequence number, with a payload one byte longer than the bytes delivered, closes the
  -- output although no byte of it is received or delivered.
  pub invalid_fin-closes :
      length msg.payload ≡ suc t.reassembler.output.bytes_pushed
      → ((receive t msg).reassembler.output.closed ≡ true)
        × ((receive t msg).reassembler.output.bytes_pushed ≡ t.reassembler.output.bytes_pushed)
        × ((i : ℕ) → received (receive t msg).reassembler i ≡ received t.reassembler i)
  invalid_fin-closes size =
      let r = t.reassembler in
      let r' = insert r (mod64 - 1) msg.payload true in
      let vr = v.reassembler_valid in
      let top : window_end r.output ≤ mod64 - 1 = omega (arith, vr.in_range) in
      let (pushed, same) = insert_refused r (mod64 - 1) msg.payload true vr top in
      let ins = insert-Inserted r (mod64 - 1) msg.payload true vr (inl top) in
      let (seen, end, _, _) = insert_end r (mod64 - 1) msg.payload in
      subst
        (λ (u : TcpReceiver).
          (u.reassembler.output.closed ≡ true)
          × (u.reassembler.output.bytes_pushed ≡ r.output.bytes_pushed)
          × ((i : ℕ) → received u.reassembler i ≡ received r i))
        (sym refused)
        (
          ins.closes
              ∙ closes_at r.output.closed r'.eof_seen r'.output.bytes_pushed r'.end_index seen
                  (omega (arith, pushed, end, size, early)),
          pushed,
          same,
        )
