-- ===== src/TcpReceiver/Receive.antt =====
-- What `receive` does to a valid receiver.
use cs_144_minnow_tcp.Base.{
  ap₂, if◌then◌else◌, none, not, ◌&&◌, ◌≤◌, ◌≡◌, inl, inr, refl, sym, ap, ◌∙◌, subst, Bool, true,
  false, ◌||◌, not, Option, none, some, arith, if◌then◌else◌,
}
use mathlib.Core.Option.{some-injective}
use cs_144_minnow_tcp.Wrap32.{Wrap32, IsWord}
use cs_144_minnow_tcp.ByteStream.{ByteStream}
use cs_144_minnow_tcp.ByteStream
use cs_144_minnow_tcp.ByteStream.Inv.{close-IsValid, set_error-IsValid}
use cs_144_minnow_tcp.Reassembler.{Reassembler, insert}
use cs_144_minnow_tcp.Reassembler.Insert.{Inserted, insert-Inserted, received}
use cs_144_minnow_tcp.Reassembler.Insert
use cs_144_minnow_tcp.Messages.{TcpSenderMessage}
use cs_144_minnow_tcp.TcpReceiver.{
  TcpReceiver, set_error, close, stream_index, accept, receive, receive_from,
}
use cs_144_minnow_tcp.TcpReceiver.Cases.{
  Outcome, dropped, aborted, accepted, receive-Outcome, reset_branch,
}
use cs_144_minnow_tcp.TcpReceiver.Accept.{IsValid, HasRoom, accept-Inserted}

-- The initial sequence number is that of the first SYN, for good.
abbrev pub isn_after : Option Wrap32 → TcpSenderMessage → Option Wrap32
isn_after (some isn) msg = some isn
isn_after none msg = if not msg.rst && msg.syn then some msg.seqno else none

-- What holds after a segment, whatever it is.
pub record Received (t : TcpReceiver) (msg : TcpSenderMessage) (t' : TcpReceiver) : Type 0 where
  pub valid : IsValid t'
  pub pushed_grows : t.reassembler.output.bytes_pushed ≤ t'.reassembler.output.bytes_pushed
  pub stays_closed :
      t'.reassembler.output.closed ≡ (t.reassembler.output.closed || t'.reassembler.output.closed)
  pub broken : t'.reassembler.output.error ≡ (t.reassembler.output.error || msg.rst)
  pub isn : t'.isn ≡ isn_after t.isn msg

set_error-close-IsValid :
    (r : Reassembler) → Insert.IsValid r → Insert.IsValid (close (set_error r))
set_error-close-IsValid r v = record {
  output_valid =
      close-IsValid (ByteStream.set_error r.output) (set_error-IsValid r.output v.output_valid);
  in_range = v.in_range;
  apart = v.apart;
}

or_again : (a b c : Bool) → c ≡ (a || b) → c ≡ (a || c)
or_again true b c h = h
or_again false b c h = refl

or_false : (a : Bool) → a ≡ (a || false)
or_false true = refl
or_false false = refl

or_same : (a : Bool) → a ≡ (a || a)
or_same true = refl
or_same false = refl

or_true : (a : Bool) → true ≡ (a || true)
or_true true = refl
or_true false = refl

isn_after-unknown :
    (msg : TcpSenderMessage) → (not msg.rst && msg.syn) ≡ false → none ≡ isn_after none msg
isn_after-unknown msg h = rw h refl

first_isn :
    (msg : TcpSenderMessage)
    → msg.rst ≡ false
    → msg.syn ≡ true
    → some msg.seqno ≡ isn_after none msg
first_isn msg plain syn = rw (plain, syn) refl

isn_after-reset :
    (o : Option Wrap32) (msg : TcpSenderMessage) → msg.rst ≡ true → o ≡ isn_after o msg
isn_after-reset none msg h = isn_after-unknown msg (ap (λ b. not b && msg.syn) h)
isn_after-reset (some z) msg h = refl

some-IsWord :
    (z : Wrap32) → IsWord z → (y : Wrap32) → ◌≡◌ {A = Option Wrap32} (some z) (some y) → IsWord y
some-IsWord z h y e = subst IsWord (some-injective z y e) h

accept-Received :
    (t : TcpReceiver) (isn : Wrap32) (msg : TcpSenderMessage)
    → IsValid t
    → IsWord isn
    → IsWord msg.seqno
    → HasRoom t msg
    → msg.rst ≡ false
    → some isn ≡ isn_after t.isn msg
    → Received t msg (accept t.reassembler isn msg)
unfolding accept
accept-Received t isn msg v hz hw room plain same =
    let ins = accept-Inserted t.reassembler isn msg v.reassembler_valid hz hw room in
    record {
      valid = record { reassembler_valid = ins.valid; isn_word = some-IsWord isn hz };
      pushed_grows = omega (arith, ins.count);
      stays_closed = or_again _ _ _ ins.closes;
      broken =
          ins.same_error
          ∙ or_false t.reassembler.output.error
          ∙ ap (λ b. t.reassembler.output.error || b) (sym plain);
      isn = same;
    }

-- A segment with a 32-bit sequence number keeps a valid receiver valid while the stream is more
-- than a round short of 2 ^ 64; no delivered byte is taken back, the stream is not reopened, the
-- error is set by RST only and for good, and the first SYN fixes the initial sequence number.
pub receive-Received :
    (t : TcpReceiver) (msg : TcpSenderMessage)
    → IsValid t
    → IsWord msg.seqno
    → HasRoom t msg
    → Received t msg (receive t msg)
receive-Received t msg v hw room = go (receive-Outcome t msg)
  where
    go : {t' : TcpReceiver} → Outcome t msg t' → Received t msg t'
    go (dropped unknown plain no_syn e) = subst (Received t msg) (sym e) (record {
      valid = v;
      pushed_grows = omega arith;
      stays_closed = or_same t.reassembler.output.closed;
      broken =
          or_false t.reassembler.output.error
          ∙ ap (λ b. t.reassembler.output.error || b) (sym plain);
      isn =
          unknown
          ∙ isn_after-unknown msg (ap₂ (λ a b. not a && b) plain no_syn)
          ∙ ap (λ o. isn_after o msg) (sym unknown);
    })
    go (aborted reset e) = subst (Received t msg) (sym e) (record {
      valid = record {
        reassembler_valid = set_error-close-IsValid t.reassembler v.reassembler_valid;
        isn_word = v.isn_word;
      };
      pushed_grows = omega arith;
      stays_closed = or_true t.reassembler.output.closed;
      broken =
          or_true t.reassembler.output.error
          ∙ ap (λ b. t.reassembler.output.error || b) (sym reset);
      isn = isn_after-reset t.isn msg reset;
    })
    go (accepted isn plain (inl known) e) = subst (Received t msg) (sym e) (
        accept-Received t isn msg v (v.isn_word isn known) hw room plain
          (ap (λ o. isn_after o msg) (sym known)))
    go (accepted isn plain (inr (unknown, syn, first)) e) = subst (Received t msg) (sym e) (
        accept-Received t isn msg v (subst IsWord (sym first) hw) hw room plain
          (ap some first ∙ first_isn msg plain syn ∙ ap (λ o. isn_after o msg) (sym unknown)))

-- Once the initial sequence number is known, a segment without RST is accepted under it.
pub receive_known :
    (t : TcpReceiver) (isn : Wrap32) (msg : TcpSenderMessage)
    → t.isn ≡ some isn
    → msg.rst ≡ false
    → receive t msg ≡ record {
      reassembler =
          insert t.reassembler
            (stream_index isn t.reassembler.output.bytes_pushed msg)
            msg.payload
            msg.fin;
      isn = some isn;
    }
unfolding receive receive_from accept
receive_known t isn msg known plain =
    ap (reset_branch t msg) plain ∙ ap (λ o. receive_from o t msg) known

-- The first SYN sets the initial sequence number.
pub receive_first :
    (t : TcpReceiver) (msg : TcpSenderMessage)
    → t.isn ≡ none
    → msg.rst ≡ false
    → msg.syn ≡ true
    → receive t msg ≡ record {
      reassembler =
          insert t.reassembler
            (stream_index msg.seqno t.reassembler.output.bytes_pushed msg)
            msg.payload
            msg.fin;
      isn = some msg.seqno;
    }
unfolding receive receive_from accept
receive_first t msg unknown plain syn =
    ap (reset_branch t msg) plain
    ∙ ap (λ o. receive_from o t msg) unknown
    ∙ ap (λ b. if not b then t else accept t.reassembler msg.seqno msg) syn
