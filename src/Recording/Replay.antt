-- ===== src/Recording/Replay.antt =====
-- The round trip of cmd/go-ring/rtp_recording.go.
use go_ring.Common.{
  ℕ, zero, suc, ◌+◌, ◌*◌, ◌/◌, ◌%◌, ◌^◌, ◌≤◌, ◌<◌, ◌≡◌, refl, sym, ap, ◌∙◌, Bool, false, ◌||◌,
  Option, none, some, List, [], ◌∷◌, ◌++◌, Bytes, length, drop, take-append, drop-append,
  length-append, append_assoc, append-nil, ltb, leb, ◌==◌, arith,
}
use go_ring.Common.Fallible.{ok, guard_iff, or_fail, bind-eq-ok}
use go_ring.Recording.{
  RecordingError, marshal_packet, packet_exceeds_limit, write_header, write_length, write_data,
  flush, rtp_recording_magic, max_recorded_packet, be32, append, new_rtp_recording, write_packet,
  write_packets, and_then, process, read_packet, read_packets, replay_rtp,
}

append_ok :
    (write_ok : Bytes → Bytes → Bool) (file b f : Bytes) (e : RecordingError)
    → append write_ok file b e ≡ ok f
    → f ≡ file ++ b
unfolding append
append_ok write_ok file b f e h = ground arith

or_fail-ok {ℓ κ} :
    {E : Type ℓ} {A : Type κ} (o : Option A) (e : E) (a : A) → or_fail o e ≡ ok a → o ≡ some a
or_fail-ok none e a h = absurd (cc)
or_fail-ok (some b) e a h = ground arith

-- What stands in the file for the packets.
data Holds {P : Type 0} (marshal : P → Option Bytes) : List P → Bytes → Type 0 where
  nothing : Holds marshal [] []
  packet :
      (p : P) (b : Bytes) {ps : List P} {rest : Bytes}
      → marshal p ≡ some b
      → length b ≤ 65536
      → Holds marshal ps rest
      → Holds marshal (p ∷ ps) (be32 (length b) ++ (b ++ rest))

module _ {P : Type 0} (marshal : P → Option Bytes) (write_ok : Bytes → Bytes → Bool) where
  write_packet-ok :
      (file f : Bytes) (p : P)
      → write_packet marshal write_ok file p ≡ ok f
      → (b : Bytes) × (marshal p ≡ some b)
        × (length b ≤ 65536)
        × (f ≡ file ++ (be32 (length b) ++ b))
  unfolding write_packet
  write_packet-ok file f p h =
      let (b, m, h1) = bind-eq-ok (or_fail (marshal p) marshal_packet) _ h in
      let (small, h2) =
        (guard_iff (leb (length b) max_recorded_packet) packet_exceeds_limit _).0 h1 in
      let (f1, e1, h3) = bind-eq-ok (append write_ok file (be32 (length b)) write_length) _ h2 in
      let (f2, e2, h4) = bind-eq-ok (append write_ok f1 b write_data) _ h3 in
      let a1 = append_ok write_ok file (be32 (length b)) f1 write_length e1 in
      let a2 = append_ok write_ok f1 b f2 write_data e2 in
      let a3 = append_ok write_ok f2 [] f flush h4 in
      (
        b,
        or_fail-ok _ _ b m,
        ground arith,
        a3 ∙ append-nil f2 ∙ a2 ∙ ap (λ x. x ++ b) a1 ∙ append_assoc file (be32 (length b)) b,
      )

  write_packets-Holds :
      (file f : Bytes) (ps : List P)
      → write_packets marshal write_ok file ps ≡ ok f
      → (rest : Bytes) × Holds marshal ps rest × (f ≡ file ++ rest)
  unfolding write_packets
  write_packets-Holds file f [] h =
      let e : file ≡ f = ground arith in ([], nothing, sym e ∙ sym (append-nil file))
  write_packets-Holds file f (p ∷ ps) h =
      let (f1, e1, h1) = bind-eq-ok (write_packet marshal write_ok file p) _ h in
      let (b, m, small, a1) = write_packet-ok file f1 p e1 in
      let (rest, holds, a2) = write_packets-Holds f1 f ps h1 in
      (
        be32 (length b) ++ (b ++ rest),
        packet p b m small holds,
        a2 ∙ ap (λ x. x ++ rest) a1 ∙ append_assoc file (be32 (length b) ++ b) rest,
      )

-- What replaying should do: the callback gets each packet in turn, up to the first that it refuses.
pub feed : {P S : Type 0} → (S → P → S × Bool) → S → List P → S × Option RecordingError
unfolding process
feed consume s [] = (s, none)
feed consume s (p ∷ ps) = and_then (process consume s p) λ s'. feed consume s' ps

and_then_same :
    {S : Type 0} (m : S × Option RecordingError) (f g : S → S × Option RecordingError)
    → ((s : S) → f s ≡ g s)
    → and_then m f ≡ and_then m g
and_then_same (s, none) f g e = e s
and_then_same (s, some x) f g e = refl

be32_value :
    (n : ℕ)
    → n ≤ 65536
    → ((n / 2 ^ 24 % 256 * 256 + n / 2 ^ 16 % 256) * 256 + n / 2 ^ 8 % 256) * 256 + n % 256 ≡ n
be32_value n h = omega arith

module _ {P S : Type 0} (marshal : P → Option Bytes) (unmarshal : Bytes → Option P)
    (consume : S → P → S × Bool) where
  abbrev Codec : Type 0
  Codec = (p : P) (b : Bytes) → marshal p ≡ some b → (unmarshal b ≡ some p) × (0 < length b)

  read_packet-append :
      (s : S) (p : P) (b rest : Bytes)
      → unmarshal b ≡ some p
      → read_packet unmarshal consume s (length b) (b ++ rest) ≡ process consume s p
  unfolding read_packet
  read_packet-append s p b rest e =
      let enough : ltb (length (b ++ rest)) (length b) ≡ false =
        ground (arith, length-append b rest) in
      rw (enough, take-append b rest, e) refl

  read_step :
      (fuel : ℕ) (s : S) (b rest : Bytes) (w x y z : ℕ)
      → ((w * 256 + x) * 256 + y) * 256 + z ≡ length b
      → 0 < length b
      → length b ≤ 65536
      → read_packets unmarshal consume (suc fuel) s (w ∷ x ∷ y ∷ z ∷ (b ++ rest))
        ≡ and_then
            (read_packet unmarshal consume s (length b) (b ++ rest))
            (λ s'. read_packets unmarshal consume fuel s' (drop (length b) (b ++ rest)))
  unfolding read_packets
  read_step fuel s b rest w x y z e full fits =
      let fine : (length b == 0 || ltb 65536 (length b)) ≡ false = ground arith in rw (e, fine) refl

  read_packets-Holds :
      (codec : Codec) (fuel : ℕ) (s : S) (ps : List P) (file : Bytes)
      → Holds marshal ps file
      → length file ≤ fuel
      → read_packets unmarshal consume fuel s file ≡ feed consume s ps
  unfolding read_packets feed
  read_packets-Holds codec fuel s _ _ nothing small = refl
  read_packets-Holds codec zero s _ _ (packet p b m fits holds) small = absurd (omega arith)
  read_packets-Holds codec (suc fuel) s _ _ (packet p b {ps} {rest} m fits holds) small =
      let (decoded, full) = codec p b m in
      let value = be32_value (length b) fits in
      read_step fuel s b rest _ _ _ _ value full fits
      ∙ ap
          (λ x.
            and_then x (λ s'. read_packets unmarshal consume fuel s' (drop (length b) (b ++ rest))))
          (read_packet-append s p b rest decoded)
      ∙ and_then_same (process consume s p) _ _ (λ s'.
        ap (λ x. read_packets unmarshal consume fuel s' x) (drop-append b rest)
        ∙ read_packets-Holds codec fuel s' ps rest holds (omega (arith, length-append b rest)))

  replay_magic :
      (s : S) (rest : Bytes)
      → replay_rtp unmarshal consume s (rtp_recording_magic ++ rest)
        ≡ read_packets unmarshal consume (length (rtp_recording_magic ++ rest)) s rest
  unfolding replay_rtp
  replay_magic s rest =
      let n = length (rtp_recording_magic ++ rest) in
      let long : ltb n 15 ≡ false = ground arith in rw long refl

  -- Where packets are recorded into a fresh file without an error, replaying the file gives the callback
  -- exactly these packets in this order, up to the first that it refuses, and no other error. `Unmarshal`
  -- gives back what `Marshal` encoded, which is at least one byte.
  pub replay_rtp-write_packets :
      (write_ok : Bytes → Bytes → Bool) (fresh file : Bytes) (s : S) (ps : List P)
      → Codec
      → new_rtp_recording write_ok ≡ ok fresh
      → write_packets marshal write_ok fresh ps ≡ ok file
      → replay_rtp unmarshal consume s file ≡ feed consume s ps
  unfolding new_rtp_recording
  replay_rtp-write_packets write_ok fresh file s ps codec started written =
      let header = append_ok write_ok [] rtp_recording_magic fresh write_header started in
      let (rest, holds, all) = write_packets-Holds marshal write_ok fresh file ps written in
      let whole : file ≡ rtp_recording_magic ++ rest = all ∙ ap (λ x. x ++ rest) header in
      ap (replay_rtp unmarshal consume s) whole
      ∙ replay_magic s rest
      ∙ read_packets-Holds codec (length (rtp_recording_magic ++ rest)) s ps rest holds
          (omega (arith, length-append rtp_recording_magic rest))
