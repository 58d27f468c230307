-- ===== src/Lldp/Total.antt =====
-- `DecodeLLDPDU` and `DecodeLLDPFrame` on any input.
pub mod Tlv
use Tlv.{IsMessage, decode_tlv-Good}
use omnidiscover.Prelude.{
  ℕ, suc, ◌+◌, ◌-◌, ◌*◌, ◌/◌, ◌%◌, ◌≤◌, ◌<◌, ◌≡◌, refl, Bool, true, false, not, ◌&&◌, ◌||◌, Option,
  none, some, arith, ltb, leb, ◌==◌, if◌then◌else◌, split_if, split_lt, split_eq, length, Bytes,
  All, IsByte,
}
use omnidiscover.Go.{Go, ret, next, done}
use omnidiscover.Go.Ensures.{
  Ensures, ensures, Ensures-bind, Ensures-mono, Ensures-slice, Ensures-be16_at, Ensures-index,
  Ensures-write, index-ret, Ensures-loop, Progress,
}
use omnidiscover.Protocol.{DecodeStatus, add_issue, too_large, fatal, usable}
use omnidiscover.Ethernet.{
  EthernetFrame, Decoded, fail, empty_frame, decode_frame_into, ether_type_lldp,
}
use omnidiscover.Ethernet.Frame.{decode_frame_into-GoodFrame}
use omnidiscover.Lldp.Message.{LldpMessage, reset}
use omnidiscover.Lldp.{
  Scan, Next, Valid, start, store_tlv, scan_tlv, scan, decode_lldpdu_into, decode_lldpdu,
  max_lldpdu_size, is_lldp_singleton, decode_tlv, reset_destination, stamp_capture,
  decode_lldp_frame,
}

pub reset-IsMessage : (m : LldpMessage) → IsMessage (reset m)
unfolding reset
reset-IsMessage m = ground arith

module _ (pdu : Bytes) (a : All IsByte pdu) where
  record Inv (s : Scan) : Type 0 where
    message : IsMessage s.dst
    seen : length s.seen ≡ 128
    off : s.off ≤ length pdu

  abbrev Result : Decoded LldpMessage → Type 0
  Result r = IsMessage r.0

  abbrev left : Scan → ℕ
  left s = length pdu - s.off

  store_tlv-Inv :
      (m header typ : ℕ) (s : Scan) (v : Valid)
      → Inv s
      → typ < 128
      → IsMessage v.1
      → left s < m
      → Ensures (Progress Inv left Result m) (store_tlv header typ s v)
  unfolding store_tlv
  store_tlv-Inv m header typ s (false, dst) i t g lt =
      split_if (leb 1 typ && leb typ 3) (λ e. rw e (ensures g))
        λ e. rw e (ensures (record { message = g; seen = i.seen; off = i.off }, lt))
  store_tlv-Inv m header typ s (true, dst) i t g lt =
      Ensures-write s.seen typ true _ (omega (arith, i.seen))
        λ seen size. ensures (record { message = g; seen = omega (arith, i.seen); off = i.off }, lt)

  scan_tlv-Inv :
      (m header typ size : ℕ) (v : Bytes) (s : Scan)
      → Inv s
      → typ < 128
      → length v ≡ size
      → All IsByte v
      → left s < m
      → Ensures (Progress Inv left Result m) (scan_tlv header typ size v s)
  unfolding scan_tlv
  scan_tlv-Inv m header typ size v s i t e b lt =
      split_if (typ == 0)
        (λ z. rw z (
          split_if (not (size == 0) || not (s.mandatory == 3)) (λ y. rw y (ensures i.message))
            λ y. rw y (ensures i.message)))
        λ z. rw z (
          let (seen, found) = index-ret s.seen typ (omega (arith, i.seen)) in
          rw found (
            split_if (seen && is_lldp_singleton typ)
              (λ y. rw y (ensures (record { message = i.message; seen = i.seen; off = i.off }, lt)))
              λ y. rw y (
                Ensures-bind (decode_tlv-Good typ size v s.dst e b i.message)
                  λ r g. store_tlv-Inv m header typ s r i t g lt)))

  scan-Inv : (s : Scan) → Inv s → Ensures (Progress Inv left Result (left s)) (scan pdu s)
  unfolding scan
  scan-Inv s i =
      split_lt (length pdu) (s.off + 2) (λ e _. rw e (ensures i.message))
        λ e fits. rw e (
          Ensures-be16_at pdu s.off _ fits a λ head small.
            split_lt (length pdu) (s.off + 2 + head % 512) (λ t _. rw t (ensures i.message))
              λ t inside. rw t (
                Ensures-slice pdu (s.off + 2) (s.off + 2 + head % 512) _ (omega arith) inside a
                  λ v size b.
                    split_if (ltb s.mandatory 3 && not (head / 512 % 256 == s.mandatory + 1))
                      (λ y. rw y (ensures i.message))
                      λ y. rw y (
                        scan_tlv-Inv (left s) s.off (head / 512 % 256) (head % 512) v _
                          (record { message = i.message; seen = i.seen; off = inside })
                          (omega arith) (omega arith) b (omega arith))))

  decode_lldpdu_into-IsMessage : (dst : LldpMessage) → Ensures Result (decode_lldpdu_into pdu dst)
  unfolding decode_lldpdu_into
  decode_lldpdu_into-IsMessage dst =
      split_lt max_lldpdu_size (length pdu) (λ e _. rw e (ensures (reset-IsMessage dst)))
        λ e _. rw e (
          Ensures-loop Inv left (scan pdu) scan-Inv (length pdu + 1) (start (reset dst))
            (omega arith)
            (record { message = reset-IsMessage dst; seen = refl; off = omega arith }))

-- What is behind `dst` afterwards: nothing behind nil, else a message whose fields lie in their
-- widths.
abbrev pub Leaves : Option LldpMessage → Option LldpMessage → Type 0
Leaves none none = Unit
Leaves none (some m) = ⊥
Leaves (some dst) none = ⊥
Leaves (some dst) (some m) = IsMessage m

pub decode_lldpdu-Leaves :
    (pdu : Bytes) (dst : Option LldpMessage)
    → All IsByte pdu
    → Ensures (λ (r : Decoded (Option LldpMessage)). Leaves dst r.0) (decode_lldpdu pdu dst)
unfolding decode_lldpdu
decode_lldpdu-Leaves pdu none a = ensures tt
decode_lldpdu-Leaves pdu (some dst) a =
    Ensures-bind (decode_lldpdu_into-IsMessage pdu a dst) λ r g. ensures g

reset_destination-Leaves : (dst : Option LldpMessage) → Leaves dst (reset_destination dst)
unfolding reset_destination
reset_destination-Leaves none = tt
reset_destination-Leaves (some dst) = reset-IsMessage dst

stamp_capture-Leaves :
    (eth : EthernetFrame) (dst m : Option LldpMessage)
    → Leaves dst m
    → Leaves dst (stamp_capture eth m)
unfolding stamp_capture
stamp_capture-Leaves eth none none g = tt
stamp_capture-Leaves eth none (some m) g = g
stamp_capture-Leaves eth (some dst) none g = g
stamp_capture-Leaves eth (some dst) (some m) g = ground arith

-- On any bytes `DecodeLLDPFrame` returns, without a panic and within its rounds. A nil `dst` stays
-- nil; else the message that it leaves has identifiers and texts of bytes, a 16-bit TTL, 16-bit
-- VLANs and capabilities, and management addresses of at most 30 bytes.
pub decode_lldp_frame-total :
    (frame : Bytes) (dst : Option LldpMessage)
    → All IsByte frame
    → Ensures (λ (r : Decoded (Option LldpMessage)). Leaves dst r.0) (decode_lldp_frame frame dst)
unfolding decode_lldp_frame
decode_lldp_frame-total frame dst a =
    Ensures-bind (decode_frame_into-GoodFrame frame empty_frame a) λ r g.
      split_if (not (usable r.1)) (λ e. rw e (ensures (reset_destination-Leaves dst)))
        λ e. rw e (
          split_if (not (r.0.ether_type == ether_type_lldp))
            (λ t. rw t (ensures (reset_destination-Leaves dst)))
            λ t. rw t (
              Ensures-bind (decode_lldpdu-Leaves r.0.payload dst g.0.payload)
                λ q h. ensures (stamp_capture-Leaves r.0 dst q.0 h)))
