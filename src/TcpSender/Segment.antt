-- ===== src/TcpSender/Segment.antt =====
-- `send_segment`: what it transmits and how it changes the sender.
use Prim.Native.Nat.{zero-le}
use cs_144_minnow_tcp.Base.{
  ℕ, ◌+◌, ◌≤◌, ◌<◌, ◌≡◌, ◌⊎◌, inl, inr, refl, ap, ap₂, sym, subst, ◌∙◌, Bool, true, false, not,
  ◌&&◌, ◌||◌, ◌==◌, ==_iff, ltb, some, List, [], ◌∷◌, ◌++◌, arith, is_empty, length, take, drop,
  mod64, Bool-cases, length-take, drop_all, lt→ltb,
}
use cs_144_minnow_tcp.Wrap32.{wrap}
use cs_144_minnow_tcp.ByteStream.{Bytes, ByteStream, bytes_buffered}
use cs_144_minnow_tcp.ByteStream.Inv.{contents}
use cs_144_minnow_tcp.ByteStream.Ops.{Popped}
use cs_144_minnow_tcp.Messages.{TcpSenderMessage, bit, bit_le, sequence_length}
use cs_144_minnow_tcp.TcpSender.{
  TcpSender, make_empty_message, segment_of, size_of, payload_room, finish_segment, record_sent,
  send_segment, fin_fits,
}
use cs_144_minnow_tcp.TcpSender.Inv.{IsValid, Chain, Chain-snoc, is_empty-snoc}
use cs_144_minnow_tcp.TcpSender.Payload.{pull_payload-take}
use cs_144_minnow_tcp.TcpSender.Flags.{
  buffered_zero, size_bound, started, syn_after, length_zero, syn_of_zero, fin_of_zero, positive,
}

-- input as fits, and carries the FIN exactly if the closed input is drained and a number is left.
pub record Sent (s : TcpSender) (window : ℕ) (s' : TcpSender) (seg : TcpSenderMessage)
    : Type 0 where
  pub seqno : seg.seqno ≡ wrap s.next_seqno s.isn
  pub syn : seg.syn ≡ not s.syn_sent
  pub payload : seg.payload ≡ take (payload_room s window) (contents s.input)
  pub fin : seg.fin ≡ (
      not s.fin_sent
      && s.input.closed
      && is_empty (contents s'.input)
      && ltb (bit seg.syn + length seg.payload) window)
  pub rst : seg.rst ≡ s.input.error
  pub occupies : 0 < sequence_length seg
  pub fits : sequence_length seg ≤ window
  pub popped : Popped s.input (payload_room s window) s'.input
  pub next : s'.next_seqno ≡ s.next_seqno + sequence_length seg
  pub flight : s'.bytes_in_flight ≡ s.bytes_in_flight + sequence_length seg
  pub queued : s'.outstanding ≡ s.outstanding ++ (seg ∷ [])
  pub fin_noted : s'.fin_sent ≡ (s.fin_sent || seg.fin)

-- Nothing to send: the SYN is out, the input is empty, and it is not closed or its FIN is out.
pub record Idle (s s' : TcpSender) : Type 0 where
  pub next : s'.next_seqno ≡ s.next_seqno
  pub flight : s'.bytes_in_flight ≡ s.bytes_in_flight
  pub queued : s'.outstanding ≡ s.outstanding
  pub drained : contents s.input ≡ []
  pub still_drained : contents s'.input ≡ []
  pub closed : s'.input.closed ≡ s.input.closed
  pub syn_done : s'.syn_sent ≡ true
  pub fin_done : (s'.fin_sent || not s'.input.closed) ≡ true

-- Fields that `send_segment` leaves alone.
pub record SameWindow (s s' : TcpSender) : Type 0 where
  pub isn : s'.isn ≡ s.isn
  pub window_size : s'.window_size ≡ s.window_size
  pub zero_window : s'.zero_window ≡ s.zero_window

abbrev pub Outcome : TcpSender → ℕ → TcpSender × List TcpSenderMessage × Bool → Type 0
Outcome s window (s', msgs, more) =
    IsValid s'
    × SameWindow s s'
    × (((more ≡ false) × (msgs ≡ []) × Idle s s')
        ⊎ ((more ≡ true) × (seg : TcpSenderMessage) × (msgs ≡ seg ∷ []) × Sent s window s' seg))

module _ (s : TcpSender) (window : ℕ) (v : IsValid s) (pos : 0 < window)
    (fits : s.bytes_in_flight + window ≤ 65535) (far : s.next_seqno + window < mod64)
    (input : ByteStream) (p : Popped s.input (payload_room s window) input) where
  abbrev payload : Bytes
  payload = take (payload_room s window) (contents s.input)

  room-le : bit (not s.syn_sent) + length payload ≤ window
  room-le =
      omega (arith, length-take (payload_room s window) (contents s.input), bit_le (not s.syn_sent))

  seg : TcpSenderMessage
  seg = segment_of s window payload input

  size-le : sequence_length seg ≤ window
  unfolding seg segment_of
  size-le = omega (
    arith,
    room-le,
    size_bound (size_of s payload) window (not s.fin_sent) input.closed (bytes_buffered input == 0)
        (omega (arith, room-le)),
    bit_le (fin_fits s input (size_of s payload) window),
  )

  fin_lem : fin_fits s input (size_of s payload) window ≡ (
      not s.fin_sent
      && s.input.closed
      && is_empty (contents input)
      && ltb (bit (not s.syn_sent) + length payload) window)
  fin_lem =
      ap (λ n. not s.fin_sent && input.closed && bytes_buffered input == 0 && ltb n window)
        (let e : size_of s payload ≡ bit (not s.syn_sent) + length payload =
            omega (arith, room-le) in
          e)
      ∙ ap₂ (λ a b. not s.fin_sent && a && b && ltb (bit (not s.syn_sent) + length payload) window)
          p.same_closed (buffered_zero input p.valid)

  transmitted-Sent :
      0 < sequence_length seg → Sent s window (record_sent s input seg (sequence_length seg)) seg
  unfolding seg segment_of make_empty_message wrap
  transmitted-Sent occupies = record {
    seqno = refl;
    syn = refl;
    payload = refl;
    fin = fin_lem;
    rst = refl;
    occupies = occupies;
    fits = size-le;
    popped = p;
    next = omega (arith, size-le);
    flight = omega (arith, size-le);
    queued = refl;
    fin_noted = refl;
  }

  sent-IsValid : 0 < sequence_length seg → IsValid (record_sent s input seg (sequence_length seg))
  unfolding seg segment_of make_empty_message wrap
  sent-IsValid occupies = record {
    input_valid = p.valid;
    isn_word = v.isn_word;
    next_fits = omega arith;
    flight_le = omega (arith, size-le, v.flight_le);
    flight_small = omega (arith, size-le);
    chain =
        Chain-snoc s.isn _ s.next_seqno _ s.outstanding seg
          (subst (λ n. Chain s.isn n s.outstanding s.next_seqno)
            (omega (arith, size-le, v.flight_le, v.next_fits)) v.chain)
          refl occupies (omega (arith, size-le)) (omega (arith, size-le));
    window_fits = v.window_fits;
    zero_noted = v.zero_noted;
    syn_first = syn_after s.syn_sent (omega (arith, size-le));
    timer_runs = started s.timer ∙ sym (ap not (is_empty-snoc s.outstanding seg));
  }

  idle-IsValid : sequence_length seg ≡ 0 → IsValid (record s { input = input })
  idle-IsValid none = record {
    input_valid = p.valid;
    isn_word = v.isn_word;
    next_fits = v.next_fits;
    flight_le = v.flight_le;
    flight_small = v.flight_small;
    chain = v.chain;
    window_fits = v.window_fits;
    zero_noted = v.zero_noted;
    syn_first = v.syn_first;
    timer_runs = v.timer_runs;
  }

  nothing-Idle : sequence_length seg ≡ 0 → Idle s (record s { input = input })
  unfolding seg segment_of
  nothing-Idle none =
      let fin = fin_fits s input (size_of s payload) window in
      let zero : bit (not s.syn_sent) + length payload ≡ 0 = omega (
        arith,
        room-le,
        bit_le fin,
        size-le,
        size_bound (size_of s payload) window (not s.fin_sent) input.closed
            (bytes_buffered input == 0) (omega (arith, room-le)),
      ) in
      let drained =
        length_zero (contents s.input)
          (omega (arith, zero, length-take (payload_room s window) (contents s.input))) in
      record {
        next = refl;
        flight = refl;
        queued = refl;
        syn_done = syn_of_zero s.syn_sent (omega (arith, zero));
        drained = drained;
        still_drained = gone drained;
        closed = p.same_closed;
        fin_done =
            ap (λ b. s.fin_sent || not b) p.same_closed
            ∙ fin_of_zero s.fin_sent s.input.closed _ _
                (let e : bit fin ≡ 0 = omega (arith, room-le, bit_le fin, none) in
                  ap bit (sym fin_lem) ∙ e)
                (ap is_empty (gone drained)) (lt→ltb _ _ (omega (arith, zero)));
      }
    where
      gone : contents s.input ≡ [] → contents input ≡ []
      gone e =
          p.bytes
          ∙ ap (drop (payload_room s window)) e
          ∙ drop_all (payload_room s window) [] zero-le

  finish_segment-Outcome : Outcome s window (finish_segment s window payload input)
  unfolding finish_segment seg
  finish_segment-Outcome = elim (Bool-cases (sequence_length seg == 0)) [
    | inl none ↦
        let e = (==_iff (sequence_length seg) 0).0 none in
        rw none (
          idle-IsValid e,
          (record { isn = refl; window_size = refl; zero_window = refl }),
          inl (refl, refl, nothing-Idle e),
        )
    | inr some_number ↦
        let h = positive (sequence_length seg) some_number in
        rw some_number (
          sent-IsValid h,
          (record { isn = refl; window_size = refl; zero_window = refl }),
          inr (refl, seg, refl, transmitted-Sent h),
        )
  ]

-- With a window that is not empty, at most 65535 numbers in flight with it and sequence numbers
-- short of 2 ^ 64, send_segment of a valid sender returns and keeps the invariant; it transmits one
-- segment that the window has room for, or nothing because nothing is left to send.
pub send_segment-Outcome :
    (s : TcpSender) (window : ℕ)
    → IsValid s
    → 0 < window
    → s.bytes_in_flight + window ≤ 65535
    → s.next_seqno + window < mod64
    → (r : TcpSender × List TcpSenderMessage × Bool) × (send_segment s window ≡ some r)
      × Outcome s window r
unfolding send_segment
send_segment-Outcome s window v pos fits far =
    let (input, e, p) = pull_payload-take (payload_room s window) s.input v.input_valid in
    let some_window : (window == 0) ≡ false = ground arith in
    (
      finish_segment s window (take (payload_room s window) (contents s.input)) input,
      rw some_window (rw e),
      finish_segment-Outcome s window v pos fits far input p,
    )
