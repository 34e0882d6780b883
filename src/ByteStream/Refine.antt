-- ===== src/ByteStream/Refine.antt =====
-- A bounded channel of bytes as the contract of src/byte_stream.cc under sequences of calls.
use cs_144_minnow_tcp.Base.{
  ℕ, ◌+◌, ◌-◌, ◌%◌, ◌<◌, ◌≡◌, refl, ap, ◌∙◌, Bool, true, ◌&&◌, Option, some, List, [], ◌∷◌, ◌++◌,
  ◌>>=◌, arith, length, take, drop, is_empty, mod64, ◌==◌,
}
use cs_144_minnow_tcp.ByteStream.{
  Bytes, ByteStream, bytes_buffered, available_capacity, is_finished, push, pop, close, set_error,
  read,
}
use cs_144_minnow_tcp.ByteStream.Inv.{IsValid, contents, close-IsValid, set_error-IsValid}
use cs_144_minnow_tcp.ByteStream.Ops.{push-Pushed, pop-Popped, available_capacity_lem}
use cs_144_minnow_tcp.ByteStream.Reading.{read-take}

pub data Call : Type 0 where
  pushes : Bytes → Call
  pops reads : ℕ → Call
  closes fails : Call

-- What a client sees after a call: the bytes that `read` returned, the bytes buffered, the space
-- left, and whether the stream is finished or broken.
pub record Reply : Type 0 where
  pub out : Bytes
  pub buffered : ℕ
  pub space : ℕ
  pub finished : Bool
  pub broken : Bool

pub record Channel : Type 0 where
  pub capacity : ℕ
  pub bytes : Bytes
  pub closed : Bool
  pub error : Bool

abbrev answer : Channel → Bytes → Channel × Reply
answer c out = (
  c,
  record {
    out = out;
    buffered = length c.bytes;
    space = c.capacity - length c.bytes;
    finished = c.closed && is_empty c.bytes;
    broken = c.error;
  },
)

-- One call of the channel: a push appends what fits, a pop and a read take from the front.
pub channel_step : Channel → Call → Channel × Reply
channel_step c (pushes b) =
    answer (record c { bytes = c.bytes ++ take (c.capacity - length c.bytes) b }) []
channel_step c (pops n) = answer (record c { bytes = drop n c.bytes }) []
channel_step c (reads n) = answer (record c { bytes = drop n c.bytes }) (take n c.bytes)
channel_step c closes = answer (record c { closed = true }) []
channel_step c fails = answer (record c { error = true }) []

pub channel_run : Channel → List Call → List Reply
unfolding channel_step
channel_run c [] = []
channel_run c (x ∷ xs) = let (c', r) = channel_step c x in r ∷ channel_run c' xs

abbrev observe : ByteStream → Bytes → Option (ByteStream × Reply)
observe s out = some (
  s,
  record {
    out = out;
    buffered = bytes_buffered s;
    space = available_capacity s;
    finished = is_finished s;
    broken = s.error;
  },
)

-- One call of the stream.
pub step : ByteStream → Call → Option (ByteStream × Reply)
step s (pushes b) = observe (push s b) []
step s (pops n) = do s' ← pop s n; observe s' []
step s (reads n) = do (out, s') ← read s n; observe s' out
step s closes = observe (close s) []
step s fails = observe (set_error s) []

pub run : ByteStream → List Call → Option (List Reply)
unfolding step
run s [] = some []
run s (x ∷ xs) = do (s', r) ← step s x; rs ← run s' xs; some (r ∷ rs)

abbrev pub view : ByteStream → Channel
view s = record { capacity = s.capacity; bytes = contents s; closed = s.closed; error = s.error }

-- A std::string is shorter than 2 ^ 64.
abbrev pub IsShort : Call → Type 0
IsShort (pushes b) = length b < mod64
IsShort _ = Unit {0}

abbrev pub AllShort : List Call → Type 0
AllShort [] = Unit {0}
AllShort (x ∷ xs) = IsShort x × AllShort xs

finished_iff :
    (b : Bytes) (m n : ℕ)
    → m < mod64
    → n < mod64
    → (m + mod64 - n) % mod64 ≡ length b
    → (m == n) ≡ is_empty b
finished_iff [] m n hm hn e = ground arith
finished_iff (x ∷ b) m n hm hn e = ground arith

-- What the client sees of a valid stream is what it sees of the channel.
observe_view :
    (s : ByteStream) (out : Bytes) → IsValid s → observe s out ≡ some (s, (answer (view s) out).1)
observe_view s out v = ground (
  arith,
  finished_iff (contents s) s.bytes_pushed s.bytes_popped v.pushed_fits v.popped_fits v.counted,
  available_capacity_lem v,
)

space_lem : (s : ByteStream) → IsValid s → available_capacity s ≡ s.capacity - length (contents s)
space_lem s v = omega (arith, available_capacity_lem v)

-- The record that a step must give: it does not fault, and agrees with the channel.
abbrev Simulates : ByteStream → Call → Type 0
Simulates s c =
    (s' : ByteStream) × (step s c ≡ some (s', (channel_step (view s) c).1))
    × (view s' ≡ (channel_step (view s) c).0)
    × IsValid s'

-- A stream whose view is the channel's next state shows the channel's answer.
shown :
    (s : ByteStream) (out : Bytes) (c : Channel)
    → IsValid s
    → view s ≡ c
    → observe s out ≡ some (s, (answer c out).1)
shown s out c v e = observe_view s out v ∙ ap (λ k. some (s, (answer k out).1)) e

step-Simulates : (s : ByteStream) (c : Call) → IsValid s → IsShort c → Simulates s c
unfolding step channel_step
step-Simulates s (pushes b) v h =
    let p = push-Pushed s b v h in
    let e : view (push s b) ≡ (channel_step (view s) (pushes b)).0 =
      ground (arith, p.bytes, p.same_capacity, p.same_closed, p.same_error, space_lem s v) in
    (push s b, shown (push s b) [] _ p.valid e, e, p.valid)
step-Simulates s (pops n) v h =
    let (s', q, p) = pop-Popped s n v in
    let e : view s' ≡ (channel_step (view s) (pops n)).0 =
      ground (arith, p.bytes, p.same_capacity, p.same_closed, p.same_error) in
    (s', rw q (shown s' [] _ p.valid e), e, p.valid)
step-Simulates s (reads n) v h =
    let (s', q, p) = read-take s n v in
    let e : view s' ≡ (channel_step (view s) (reads n)).0 =
      ground (arith, p.bytes, p.same_capacity, p.same_closed, p.same_error) in
    (s', rw q (shown s' (take n (contents s)) _ p.valid e), e, p.valid)
step-Simulates s closes v h =
    (close s, shown (close s) [] _ (close-IsValid s v) refl, refl, close-IsValid s v)
step-Simulates s fails v h = (
  set_error s,
  shown (set_error s) [] _ (set_error-IsValid s v) refl,
  refl,
  set_error-IsValid s v,
)

-- Every sequence of push, pop, read, close and set_error calls (each string shorter than 2 ^ 64) on
-- a valid stream returns without fault, and shows its client the replies of a bounded channel that
-- holds the stream's bytes.
pub run_refines :
    (s : ByteStream) (calls : List Call)
    → IsValid s
    → AllShort calls
    → run s calls ≡ some (channel_run (view s) calls)
unfolding run channel_run
run_refines s [] v h = refl
run_refines s (c ∷ calls) v h =
    let (s', e, w, v') = step-Simulates s c v h.0 in
    rw e (rw (run_refines s' calls v' h.1) (rw w refl))
