-- ===== src/TcpSender/Inv.antt =====
-- The invariant of the sender.
use cs_144_minnow_tcp.Base.{
  ℕ, ◌+◌, ◌-◌, ◌≤◌, ◌<◌, ◌≡◌, refl, ap, sym, subst, ◌∙◌, false, not, ◌==◌, List, [], ◌∷◌, ◌++◌,
  arith, is_empty, mod64,
}
use cs_144_minnow_tcp.Wrap32.{Wrap32, IsWord, wrap}
use cs_144_minnow_tcp.ByteStream.{ByteStream}
use cs_144_minnow_tcp.ByteStream.Inv
use cs_144_minnow_tcp.Retransmission
use cs_144_minnow_tcp.Messages.{TcpSenderMessage, sequence_length}
use cs_144_minnow_tcp.TcpSender.{TcpSender, new}

-- Segments that follow one another without a gap, from absolute number `n` up to `next`; each
-- occupies a number, and fewer than 2 ^ 16.
abbrev pub Chain : Wrap32 → ℕ → List TcpSenderMessage → ℕ → Type 0
Chain isn n [] next = n ≡ next
Chain isn n (seg ∷ rest) next =
    (seg.seqno ≡ wrap n isn)
    × (0 < sequence_length seg)
    × (sequence_length seg ≤ 65535)
    × Chain isn (n + sequence_length seg) rest next

pub record IsValid (s : TcpSender) : Type 0 where
  pub input_valid : Inv.IsValid s.input
  pub isn_word : IsWord s.isn
  pub next_fits : s.next_seqno < mod64
  pub flight_le : s.bytes_in_flight ≤ s.next_seqno
  pub flight_small : s.bytes_in_flight ≤ 65535
  pub chain : Chain s.isn (s.next_seqno - s.bytes_in_flight) s.outstanding s.next_seqno
  pub window_fits : s.window_size ≤ 65535
  pub zero_noted : s.zero_window ≡ (s.window_size == 0)
  pub syn_first : s.syn_sent ≡ not (s.next_seqno == 0)
  pub timer_runs : Retransmission.is_running s.timer ≡ not (is_empty s.outstanding)

pub new-IsValid :
    (input : ByteStream) (isn : Wrap32) (initial_rto_ms : ℕ)
    → Inv.IsValid input
    → IsWord isn
    → IsValid (new input isn initial_rto_ms)
unfolding new Retransmission.new
new-IsValid input isn rto v h = record {
  input_valid = v;
  isn_word = h;
  next_fits = omega arith;
  flight_le = omega arith;
  flight_small = omega arith;
  chain = refl;
  window_fits = omega arith;
  zero_noted = refl;
  syn_first = refl;
  timer_runs = refl;
}

-- The end of a chain is behind its start.
pub Chain-le :
    (isn : Wrap32) (n next : ℕ) (segs : List TcpSenderMessage) → Chain isn n segs next → n ≤ next
Chain-le isn n next [] c = omega arith
Chain-le isn n next (seg ∷ rest) c =
    omega (arith, Chain-le isn (n + sequence_length seg) next rest c.3)

-- A segment joins the end of a chain.
pub Chain-snoc :
    (isn : Wrap32) (n next next' : ℕ) (segs : List TcpSenderMessage) (seg : TcpSenderMessage)
    → Chain isn n segs next
    → seg.seqno ≡ wrap next isn
    → 0 < sequence_length seg
    → sequence_length seg ≤ 65535
    → next' ≡ next + sequence_length seg
    → Chain isn n (segs ++ (seg ∷ [])) next'
Chain-snoc isn n next next' [] seg c e h k l = (e ∙ ap (λ m. wrap m isn) (sym c), h, k, omega arith)
Chain-snoc isn n next next' (x ∷ segs) seg c e h k l =
    (c.0, c.1, c.2, Chain-snoc isn (n + sequence_length x) next next' segs seg c.3 e h k l)

pub Chain-append :
    (isn : Wrap32) (n mid next : ℕ) (segs segs' : List TcpSenderMessage)
    → Chain isn n segs mid
    → Chain isn mid segs' next
    → Chain isn n (segs ++ segs') next
Chain-append isn n mid next [] segs' c d = subst (λ m. Chain isn m segs' next) (sym c) d
Chain-append isn n mid next (x ∷ segs) segs' c d =
    (c.0, c.1, c.2, Chain-append isn (n + sequence_length x) mid next segs segs' c.3 d)

pub is_empty-snoc : {A : Type 0} (xs : List A) (x : A) → is_empty (xs ++ (x ∷ [])) ≡ false
is_empty-snoc [] x = refl
is_empty-snoc (y ∷ xs) x = refl
