-- ===== src/H264/Writer.antt =====
-- cmd/go-ring/h264_writer.go: complete access units from RTP packets. The depacketizer of pion/rtp
-- and the output are parameters. `output` is the list of the calls of `output.Write`, oldest first,
-- and `write_ok` says of the earlier calls and the new one whether the new one succeeds.
pub mod Sets
pub mod Output
pub mod Loss
pub mod Bounds
use mathlib.Core.List.{reverse}
use go_ring.Common.{
  ℕ, zero, suc, ◌+◌, ◌*◌, ◌%◌, ◌^◌, Bool, true, false, not, ◌&&◌, ◌||◌, Option, none, some, List,
  [], ◌∷◌, ◌++◌, Bytes, length, is_empty, ltb, ◌==◌, if◌then◌else◌, ◌>>=◌,
}
use go_ring.Common.Maps.{Map, lookup, insert, nat_eq_instance}
use go_ring.H264.Bits.{sps_id, pps_ids, slice_pps_id}
use go_ring.H264.Payload.{nal_type, nal_sps, nal_pps, nal_idr, valid_h264_payload}

abbrev pub max_h264_frame_bytes : ℕ
max_h264_frame_bytes = 8 * 2 ^ 20

abbrev pub h264_start_code : Bytes
h264_start_code = 0 ∷ 0 ∷ 0 ∷ 1 ∷ []

pub record H264PpsInfo : Type 0 where
  pub sps_id : ℕ
  pub pps_bytes : Bytes

-- The part of an RTP packet that the writer reads.
pub record Packet : Type 0 where
  pub payload : Bytes
  pub timestamp : ℕ
  pub sequence_number : ℕ
  pub marker : Bool

pub record H264FrameWriter (D : Type 0) : Type 0 where
  pub output : List Bytes
  pub depacketizer : D
  pub frame : Bytes
  pub sps : Map ℕ Bytes
  pub pps : Map ℕ H264PpsInfo
  pub timestamp : ℕ  -- uint32
  pub sequence : ℕ  -- uint16
  pub have_time : Bool
  pub have_sequence : Bool
  pub damaged : Bool
  pub ready : Bool

-- The source's messages.
pub data WriteError : Type 0 where
  start_code_error parameter_set_error frame_error : WriteError

-- codecs.H264Packet of pion/rtp: a fresh value, the test for the head of a partition, and
-- `Unmarshal`, which gives the bytes to append or fails, and moves the depacketizer on.
pub record Depacketizer (D : Type 0) : Type 0 where
  pub fresh : D
  pub is_partition_head : Bytes → Bool
  pub unmarshal : D → Bytes → Option Bytes × D

-- `bytes.Split(frame, startCode)`; `chunk` is the piece read so far, newest byte first.
unfoldable pub split_start_code : Bytes → Bytes → List Bytes
split_start_code chunk (a ∷ b ∷ c ∷ d ∷ rest) =
    let cut = split_start_code [] rest in
    let longer = split_start_code (a ∷ chunk) (b ∷ c ∷ d ∷ rest) in
    if a == 0 && b == 0 && c == 0 && d == 1 then reverse chunk ∷ cut else longer
split_start_code chunk rest = (reverse chunk ++ rest) ∷ []

-- A missing key of a Go map reads as the zero value.
abbrev pub bytes_at : ℕ → Map ℕ Bytes → Bytes
bytes_at k m = elim (lookup k m) [ none ↦ [] | some v ↦ v ]

abbrev pub pps_at : ℕ → Map ℕ H264PpsInfo → H264PpsInfo
pps_at k m = elim (lookup k m) [ none ↦ record { sps_id = 0; pps_bytes = [] } | some v ↦ v ]

-- What `collectParameterReferences` returns.
pub record References : Type 0 where
  pub references : List ℕ
  pub has_idr : Bool
  pub valid : Bool

module _ {D : Type 0} where
  -- One round of the loop over the NAL units, with its variables `references` and `hasIDR`;
  -- `none` is the return for an identifier that cannot be read.
  unfoldable pub collect_nalu :
      H264FrameWriter D → List ℕ → Bool → Bytes → Option (H264FrameWriter D × List ℕ × Bool)
  collect_nalu w references has_idr [] = some (w, references, has_idr)
  collect_nalu w references has_idr (header ∷ body) =
      let nalu = header ∷ body in
      let kind = nal_type header in
      if kind == nal_sps
      then (sps_id nalu >>= λ id.
          some (record w { sps = insert id nalu w.sps }, references, has_idr))
      else if kind == nal_pps
      then (pps_ids nalu >>= λ (id, sps). some (
        record w { pps = insert id (record { sps_id = sps; pps_bytes = nalu }) w.pps },
        references,
        has_idr,
      ))
      else if kind == nal_idr || kind == 1
      then (slice_pps_id nalu >>= λ id. some (w, references ++ id ∷ [], has_idr || kind == nal_idr))
      else some (w, references, has_idr)

  unfoldable pub collect_parameter_references :
      H264FrameWriter D → List ℕ → Bool → List Bytes → H264FrameWriter D × References
  unfolding collect_nalu
  collect_parameter_references w references has_idr [] =
      (w, record { references = references; has_idr = has_idr; valid = true })
  collect_parameter_references w references has_idr (nalu ∷ nalus) =
      elim (collect_nalu w references has_idr nalu) [
        | none ↦ (w, record { references = []; has_idr = false; valid = false })
        | some (w', references', has_idr') ↦
            collect_parameter_references w' references' has_idr' nalus
      ]

  unfoldable pub has_referenced_parameter_sets : H264FrameWriter D → List ℕ → Bool
  has_referenced_parameter_sets w [] = true
  has_referenced_parameter_sets w (id ∷ references) =
      let rest = has_referenced_parameter_sets w references in
      elim (lookup id w.pps) [
        | none ↦ false
        | some info ↦ if is_empty (bytes_at info.sps_id w.sps) then false else rest
      ]

  unfoldable pub reset_frame : Depacketizer D → H264FrameWriter D → H264FrameWriter D
  reset_frame d w = record w {
    frame = [];
    depacketizer = d.fresh;
    have_time = false;
    damaged = false;
  }

  unfoldable pub append_packet_payload :
      Depacketizer D → Bytes → H264FrameWriter D → H264FrameWriter D
  append_packet_payload d payload w =
      let (bytes, moved) = d.unmarshal w.depacketizer payload in
      let taken : H264FrameWriter D = elim bytes [
        | none ↦ record w { depacketizer = moved; damaged = true }
        | some b ↦
            if ltb max_h264_frame_bytes (length w.frame + length b)
            then record w { depacketizer = moved; damaged = true }
            else record w { depacketizer = moved; frame = w.frame ++ b }
      ] in
      if not (valid_h264_payload payload) then record w { damaged = true } else taken

  -- The three tests before the payload is looked at: a new timestamp, a gap, a first packet.
  unfoldable pub enter_packet : Depacketizer D → H264FrameWriter D → Packet → H264FrameWriter D
  unfolding reset_frame
  enter_packet d w p =
      let w1 =
        if w.have_time && not (p.timestamp == w.timestamp)
        then reset_frame d (record w { ready = false })
        else w in
      let w2 =
        if w1.have_sequence && not (p.sequence_number == (w1.sequence + 1) % 65536)
        then record w1 { ready = false; damaged = w1.damaged || w1.have_time }
        else w1 in
      let w3 = record w2 { sequence = p.sequence_number; have_sequence = true } in
      if w3.have_time then w3 else record w3 {
        timestamp = p.timestamp;
        have_time = true;
        damaged = w3.damaged || not (d.is_partition_head p.payload);
      }

  -- The unit as it stands when the packet's payload has been taken.
  unfoldable pub assembled : Depacketizer D → H264FrameWriter D → Packet → H264FrameWriter D
  unfolding enter_packet append_packet_payload
  assembled d w p =
      let w' = enter_packet d w p in if w'.damaged then w' else append_packet_payload d p.payload w'

  -- What `collectParameterReferences` finds in the frame, and the writer that holds it.
  abbrev pub collected : H264FrameWriter D → H264FrameWriter D × References
  collected w = collect_parameter_references w [] false (split_start_code [] w.frame)

-- A call that may fail, and what follows `if err != nil { return err }`.
abbrev pub and_then :
    {D : Type 0}
    → H264FrameWriter D × Option WriteError
    → (H264FrameWriter D → H264FrameWriter D × Option WriteError)
    → H264FrameWriter D × Option WriteError
and_then (w, none) k = k w
and_then (w, some e) k = (w, some e)

module _ {D : Type 0} (write_ok : List Bytes → Bytes → Bool) where
  -- One call of `output.Write`.
  unfoldable pub write :
      H264FrameWriter D → Bytes → WriteError → H264FrameWriter D × Option WriteError
  write w b e =
      (record w { output = w.output ++ b ∷ [] }, if write_ok w.output b then none else some e)

  -- A start code and one parameter set.
  unfoldable pub write_parameter_set :
      H264FrameWriter D → Bytes → H264FrameWriter D × Option WriteError
  unfolding write
  write_parameter_set w nalu =
      and_then (write w h264_start_code start_code_error) λ w'. write w' nalu parameter_set_error

  unfoldable pub write_parameter_sets :
      H264FrameWriter D → List ℕ → H264FrameWriter D × Option WriteError
  unfolding write_parameter_set
  write_parameter_sets w [] = (w, none)
  write_parameter_sets w (id ∷ references) =
      let pps = pps_at id w.pps in
      and_then (write_parameter_set w (bytes_at pps.sps_id w.sps)) λ w'.
        and_then (write_parameter_set w' pps.pps_bytes) λ w''. write_parameter_sets w'' references

  -- What `writeFrame` does once the references have been found to be there: `if hasIDR { … }` ...
  unfoldable pub refresh_parameter_sets :
      H264FrameWriter D → References → H264FrameWriter D × Option WriteError
  unfolding write_parameter_sets
  refresh_parameter_sets w r =
      let with_sets =
        and_then (write_parameter_sets w r.references) λ w'. (record w' { ready = true }, none) in
      if r.has_idr then with_sets else (w, none)

  -- ... and the rest.
  unfoldable pub forward_frame : H264FrameWriter D → H264FrameWriter D × Option WriteError
  unfolding write
  forward_frame w = if w.ready then write w w.frame frame_error else (w, none)

  unfoldable pub write_collected :
      H264FrameWriter D → References → H264FrameWriter D × Option WriteError
  unfolding refresh_parameter_sets forward_frame
  write_collected w r = and_then (refresh_parameter_sets w r) forward_frame

  -- The test on what was collected.
  unfoldable pub write_checked :
      H264FrameWriter D → References → H264FrameWriter D × Option WriteError
  unfolding has_referenced_parameter_sets write_collected
  write_checked w r =
      if not r.valid || not (has_referenced_parameter_sets w r.references)
      then (record w { ready = false }, none)
      else write_collected w r

  unfoldable pub write_frame : H264FrameWriter D → H264FrameWriter D × Option WriteError
  unfolding collect_parameter_references write_checked
  write_frame w = let (w', r) = collected w in write_checked w' r

  -- The marker ends the unit.
  unfoldable pub finish_packet :
      Depacketizer D → Bool → H264FrameWriter D → H264FrameWriter D × Option WriteError
  unfolding write_frame reset_frame
  finish_packet d marker w =
      let (w', e) = if w.damaged then (w, none) else write_frame w in
      if marker then (reset_frame d w', e) else (w, none)

  unfoldable pub write_rtp :
      Depacketizer D → H264FrameWriter D → Packet → H264FrameWriter D × Option WriteError
  unfolding assembled finish_packet
  write_rtp d w p =
      if is_empty p.payload then (w, none) else finish_packet d p.marker (assembled d w p)

abbrev pub new_h264_frame_writer : {D : Type 0} → Depacketizer D → H264FrameWriter D
new_h264_frame_writer d = record {
  output = [];
  depacketizer = d.fresh;
  frame = [];
  sps = [];
  pps = [];
  timestamp = 0;
  sequence = 0;
  have_time = false;
  have_sequence = false;
  damaged = false;
  ready = false;
}
