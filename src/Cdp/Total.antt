-- ===== src/Cdp/Total.antt =====
-- `DecodeCDP` and `DecodeCDPFrame` on any input.
mod Tlv
use Tlv.{IsMessage, store_tlv-Good}
use omnidiscover.Prelude.{
  ℕ, suc, ◌+◌, ◌-◌, ◌≤◌, ◌<◌, ◌≡◌, refl, Bool, true, false, not, ◌&&◌, ◌||◌, Option, none, some,
  arith, ltb, leb, ◌==◌, if◌then◌else◌, split_if, split_lt, split_le, length, Bytes, equal, All,
  IsByte,
}
use omnidiscover.Go.{Go, ret, next, done}
use omnidiscover.Go.Ensures.{
  Ensures, ensures, Ensures-bind, Ensures-slice, Ensures-be16_at, Ensures-index, Ensures-write,
  index-ret, Ensures-loop, Progress,
}
use omnidiscover.Protocol.{DecodeStatus, add_issue, too_short, too_large, usable}
use omnidiscover.Ethernet.{EthernetFrame, Decoded, fail, empty_frame, decode_frame_into}
use omnidiscover.Ethernet.Frame.{decode_frame_into-GoodFrame}
use omnidiscover.Cdp.Message.{CdpMessage, reset}
use omnidiscover.Cdp.Checksum.{checksum16}
use omnidiscover.Cdp.Checksum.Sum.{checksum16-total}
use omnidiscover.Cdp.{
  Scan, Next, Valid, mark_tlv, is_duplicate, scan, header_status, start, decode_cdp_into,
  decode_cdp, reset_destination, stamp_capture, decode_cdp_frame, cisco_oui, cdp_pid, cdp_singleton,
}

reset-IsMessage : (m : CdpMessage) → IsMessage (reset m)
unfolding reset
reset-IsMessage m = ground arith

start-IsMessage :
    (dst : CdpMessage) (version ttl checksum sum : ℕ)
    → version < 256
    → ttl < 256
    → checksum < 65536
    → IsMessage (start dst version ttl checksum sum).dst
unfolding reset start
start-IsMessage dst version ttl checksum sum h h' h'' = ground arith

module _ (packet : Bytes) (a : All IsByte packet) where
  record Inv (s : Scan) : Type 0 where
    message : IsMessage s.dst
    seen : length s.seen ≡ 32
    off : s.off ≤ length packet

  abbrev Result : Decoded CdpMessage → Type 0
  Result r = IsMessage r.0

  abbrev left : Scan → ℕ
  left s = length packet - s.off

  module _ (s : Scan) (i : Inv s) (size typ : ℕ) (h : 4 ≤ size)
      (h' : s.off + size ≤ length packet) where
    mark_tlv-Inv :
        (v : Valid)
        → IsMessage v.1
        → Ensures (Progress Inv left Result (left s)) (mark_tlv typ size s v)
    unfolding mark_tlv
    mark_tlv-Inv (false, dst) g =
        ensures (record { message = g; seen = i.seen; off = h' }, omega arith)
    mark_tlv-Inv (true, dst) g =
        split_lt typ (length s.seen)
          (λ e lt. rw e (
            Ensures-write s.seen typ true _ lt λ seen n.
              ensures
                (record { message = g; seen = omega (arith, i.seen); off = h' }, omega arith)))
          λ e _. rw e (ensures (record { message = g; seen = i.seen; off = h' }, omega arith))

  abbrev Anything : Bool → Type 0
  Anything b = Unit

  is_duplicate-returns : (typ : ℕ) (s : Scan) → Ensures Anything (is_duplicate typ s.seen)
  unfolding is_duplicate
  is_duplicate-returns typ s =
      split_lt typ (length s.seen)
        (λ e lt. rw e (let (x, found) = index-ret s.seen typ lt in rw found (ensures tt)))
        λ e _. rw e (ensures tt)

  scan-Inv : (s : Scan) → Inv s → Ensures (Progress Inv left Result (left s)) (scan packet s)
  unfolding scan
  scan-Inv s i =
      split_le (length packet) s.off (λ e _. rw e (ensures i.message))
        λ e more. rw e (
          split_lt (length packet) (s.off + 4) (λ t _. rw t (ensures i.message))
            λ t fits. rw t (
              Ensures-be16_at packet s.off _ (omega arith) a λ typ _.
                Ensures-be16_at packet (s.off + 2) _ (omega arith) a λ size _.
                  split_if (ltb size 4 || ltb (length packet) (s.off + size))
                    (λ y. rw y (ensures i.message))
                    λ y. rw y (
                      Ensures-slice packet (s.off + 4) (s.off + size) _ (ground arith)
                        (ground arith) a
                        λ v _ b. Ensures-bind (is_duplicate-returns typ s) λ d _.
                          split_if d
                            (λ z. rw z (
                              ensures (
                                record { message = i.message; seen = i.seen; off = ground arith },
                                ground arith,
                              )))
                            λ z. rw z (
                              Ensures-bind (store_tlv-Good typ v s.dst b i.message) λ r g.
                                mark_tlv-Inv s i size typ (ground arith) (ground arith) r g))))

  decode_cdp_into-IsMessage : (dst : CdpMessage) → Ensures Result (decode_cdp_into packet dst)
  unfolding decode_cdp_into start
  decode_cdp_into-IsMessage dst =
      split_lt (length packet) 4 (λ e _. rw e (ensures (reset-IsMessage dst)))
        λ e fits. rw e (
          split_lt 65535 (length packet) (λ t _. rw t (ensures (reset-IsMessage dst)))
            λ t small. rw t (
              Ensures-index packet 0 _ (omega arith) a λ version vb.
                Ensures-index packet 1 _ (omega arith) a λ ttl tb.
                  Ensures-be16_at packet 2 _ (omega arith) a λ checksum cb.
                    Ensures-bind (checksum16-total packet a small) λ sum _.
                      Ensures-loop Inv left (scan packet) scan-Inv (length packet + 1)
                        (start dst version ttl checksum sum) (omega arith)
                        (record {
                          message = start-IsMessage dst version ttl checksum sum vb tb cb;
                          seen = refl;
                          off = fits;
                        })))

-- What is behind `dst` afterwards: nothing behind nil, else a message whose fields lie in their
-- widths.
abbrev pub Leaves : Option CdpMessage → Option CdpMessage → Type 0
Leaves none none = Unit
Leaves none (some m) = ⊥
Leaves (some dst) none = ⊥
Leaves (some dst) (some m) = IsMessage m

decode_cdp-Leaves :
    (packet : Bytes) (dst : Option CdpMessage)
    → All IsByte packet
    → Ensures (λ (r : Decoded (Option CdpMessage)). Leaves dst r.0) (decode_cdp packet dst)
unfolding decode_cdp
decode_cdp-Leaves packet none a = ensures tt
decode_cdp-Leaves packet (some dst) a =
    Ensures-bind (decode_cdp_into-IsMessage packet a dst) λ r g. ensures g

reset_destination-Leaves : (dst : Option CdpMessage) → Leaves dst (reset_destination dst)
unfolding reset_destination
reset_destination-Leaves none = tt
reset_destination-Leaves (some dst) = reset-IsMessage dst

stamp_capture-Leaves :
    (eth : EthernetFrame) (dst m : Option CdpMessage)
    → Leaves dst m
    → Leaves dst (stamp_capture eth m)
unfolding stamp_capture
stamp_capture-Leaves eth none none g = tt
stamp_capture-Leaves eth none (some m) g = g
stamp_capture-Leaves eth (some dst) none g = g
stamp_capture-Leaves eth (some dst) (some m) g = ground arith

-- On any bytes `DecodeCDPFrame` returns, without a panic and within its rounds. A nil `dst` stays
-- nil; else the message that it leaves has texts of bytes, 8-bit version, TTL and duplex, a 16-bit
-- checksum and VLAN, 32-bit capabilities, and addresses of 4 or 16 bytes.
pub decode_cdp_frame-total :
    (frame : Bytes) (dst : Option CdpMessage)
    → All IsByte frame
    → Ensures (λ (r : Decoded (Option CdpMessage)). Leaves dst r.0) (decode_cdp_frame frame dst)
unfolding decode_cdp_frame
decode_cdp_frame-total frame dst a =
    Ensures-bind (decode_frame_into-GoodFrame frame empty_frame a) λ r g.
      split_if (not (usable r.1)) (λ e. rw e (ensures (reset_destination-Leaves dst)))
        λ e. rw e (
          split_if
            (not (r.0.llc.snap)
              || not (equal r.0.llc.oui cisco_oui)
              || not (r.0.llc.pid == cdp_pid))
            (λ t. rw t (ensures (reset_destination-Leaves dst)))
            λ t. rw t (
              Ensures-bind (decode_cdp-Leaves r.0.payload dst g.0.payload)
                λ q h. ensures (stamp_capture-Leaves r.0 dst q.0 h)))
