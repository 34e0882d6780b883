-- ===== src/TcpSender/Flags.antt =====
-- Small facts on the flags and the sizes in `send_segment`.
use cs_144_minnow_tcp.Base.{
  ℕ, ◌+◌, ◌≤◌, ◌<◌, ◌≡◌, refl, Bool, true, false, not, ◌&&◌, ◌||◌, ◌==◌, ltb, [], ◌∷◌, arith,
  is_empty, length, if◌then◌else◌,
}
use cs_144_minnow_tcp.ByteStream.{Bytes, ByteStream, bytes_buffered}
use cs_144_minnow_tcp.ByteStream.Inv.{contents}
use cs_144_minnow_tcp.ByteStream.Inv
use cs_144_minnow_tcp.Retransmission
use cs_144_minnow_tcp.Timer
use cs_144_minnow_tcp.Messages.{bit}

pub zero_iff_empty : (n : ℕ) (b : Bytes) → n ≡ length b → (n == 0) ≡ is_empty b
zero_iff_empty n [] e = ground arith
zero_iff_empty n (x ∷ b) e = ground arith

pub buffered_zero :
    (input : ByteStream)
    → Inv.IsValid input
    → (bytes_buffered input == 0) ≡ is_empty (contents input)
buffered_zero input v = zero_iff_empty (bytes_buffered input) (contents input) v.counted

pub size_bound :
    (n window : ℕ) (a b c : Bool) → n ≤ window → n + bit (a && b && c && ltb n window) ≤ window
size_bound n window a b c h = ground arith

pub started :
    (t : Retransmission.Retransmission)
    → Retransmission.is_running (if Retransmission.is_running t then t else Retransmission.start t)
      ≡ true
unfolding Retransmission.start Timer.start
started t = ground arith

pub syn_after : (sent : Bool) {n : ℕ} → 0 < n → (sent || not sent) ≡ not (n == 0)
syn_after true h = ground arith
syn_after false h = ground arith

pub length_zero : (b : Bytes) → length b ≡ 0 → b ≡ []
length_zero [] h = refl
length_zero (x ∷ b) h = absurd (omega arith)

pub syn_of_zero : (sent : Bool) → bit (not sent) ≡ 0 → sent ≡ true
syn_of_zero true h = refl
syn_of_zero false h = absurd (omega arith)

pub fin_of_zero :
    (sent closed drained room : Bool)
    → bit (not sent && closed && drained && room) ≡ 0
    → drained ≡ true
    → room ≡ true
    → (sent || not closed) ≡ true
fin_of_zero sent closed drained room h e r = ground arith

pub positive : (n : ℕ) → (n == 0) ≡ false → 0 < n
positive n h = ground arith
