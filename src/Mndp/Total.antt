-- ===== src/Mndp/Total.antt =====
-- `DecodeMNDP` on any input.
use omnidiscover.Prelude.{
  ℕ, ◌+◌, ◌-◌, ◌^◌, ◌≤◌, ◌<◌, ◌≡◌, refl, Bool, true, false, not, [], Option, none, some, arith,
  ◌==◌, split_if, split_lt, split_le, length, Bytes, All, IsByte,
}
use omnidiscover.Go.Ensures.{
  Ensures, ensures, Ensures-bind, Ensures-slice, Ensures-be16_at, Ensures-write, index-ret,
  le32-ret, Ensures-loop, Progress,
}
use omnidiscover.Net.{ip4, ip6, IsAddr}
use omnidiscover.Net.Unique.{append_unique_addr-IsAddr}
use omnidiscover.Ethernet.{Decoded}
use omnidiscover.Mndp.{
  MndpDetails, MndpMessage, reset, Valid, store_uptime, store_mac, store_ipv4, store_ipv6,
  store_tlv, Scan, mark_tlv, is_duplicate, scan, start, decode_mndp_into, decode_mndp,
  max_mndp_packet_size,
}

pub record IsDetails (d : MndpDetails) : Type 0 where
  pub type_tag : d.type_tag < 65536
  pub sequence : d.sequence < 65536
  pub identity : All IsByte d.identity
  pub version : All IsByte d.version
  pub platform : All IsByte d.platform
  pub software_id : All IsByte d.software_id
  pub board : All IsByte d.board
  pub interface_name : All IsByte d.interface_name
  pub uptime_seconds : d.uptime_seconds < 2 ^ 32

-- Every field lies in the width of its Go type.
pub record IsMessage (m : MndpMessage) : Type 0 where
  pub mac : length m.mac ≡ 6
  pub addresses : All IsAddr m.addresses
  pub details : IsDetails m.details

abbrev Good : Valid → Type 0
Good r = IsMessage r.1

module _ (v : Bytes) (m : MndpMessage) (a : All IsByte v) (g : IsMessage m) where
  store_uptime-Good : Ensures Good (store_uptime v m)
  unfolding store_uptime
  store_uptime-Good =
      split_if (not (length v == 4)) (λ t. rw t (ensures g))
        λ t. rw t (let (w, e, small) = le32-ret v (ground arith) a in rw e (ensures (ground arith)))

  store_mac-Good : Good (store_mac v m)
  unfolding store_mac
  store_mac-Good = ground arith

  store_ipv4-Good : Good (store_ipv4 v m)
  unfolding store_ipv4
  store_ipv4-Good = ground (arith, append_unique_addr-IsAddr m.addresses (ip4 v) g.addresses)

  store_ipv6-Good : Good (store_ipv6 v m)
  unfolding store_ipv6
  store_ipv6-Good = ground (arith, append_unique_addr-IsAddr m.addresses (ip6 v []) g.addresses)

  store_tlv-Good : (tag : ℕ) → Ensures Good (store_tlv tag v m)
  unfolding store_tlv
  store_tlv-Good tag =
      split_if (tag == 1) (λ t. rw t (ensures store_mac-Good))
        λ t. rw t (
          split_if (tag == 5) (λ t. rw t (ensures (ground arith)))
            λ t. rw t (
              split_if (tag == 7) (λ t. rw t (ensures (ground arith)))
                λ t. rw t (
                  split_if (tag == 8) (λ t. rw t (ensures (ground arith)))
                    λ t. rw t (
                      split_if (tag == 10) (λ t. rw t store_uptime-Good)
                        λ t. rw t (
                          split_if (tag == 11) (λ t. rw t (ensures (ground arith)))
                            λ t. rw t (
                              split_if (tag == 12) (λ t. rw t (ensures (ground arith)))
                                λ t. rw t (
                                  split_if (tag == 16) (λ t. rw t (ensures (ground arith)))
                                    λ t. rw t (
                                      split_if (tag == 17) (λ t. rw t (ensures store_ipv4-Good))
                                        λ t. rw t (
                                          split_if (tag == 15) (λ t. rw t (ensures store_ipv6-Good))
                                            λ t. rw t (ensures g))))))))))

reset-IsMessage : (m : MndpMessage) → IsMessage (reset m)
unfolding reset
reset-IsMessage m = ground arith

start-IsMessage :
    (dst : MndpMessage) (type_tag sequence : ℕ)
    → type_tag < 65536
    → sequence < 65536
    → IsMessage (start dst type_tag sequence).dst
unfolding reset start
start-IsMessage dst type_tag sequence h h' = ground arith

module _ (packet : Bytes) (a : All IsByte packet) where
  record Inv (s : Scan) : Type 0 where
    message : IsMessage s.dst
    seen : length s.seen ≡ 18
    off : s.off ≤ length packet

  abbrev Result : Decoded MndpMessage → Type 0
  Result r = IsMessage r.0

  abbrev left : Scan → ℕ
  left s = length packet - s.off

  module _ (s : Scan) (i : Inv s) (size tag : ℕ) (h : s.off + 4 + size ≤ length packet) where
    mark_tlv-Inv :
        (v : Valid)
        → IsMessage v.1
        → Ensures (Progress Inv left Result (left s)) (mark_tlv tag size s v)
    unfolding mark_tlv
    mark_tlv-Inv (false, dst) g =
        ensures (record { message = g; seen = i.seen; off = omega arith }, omega arith)
    mark_tlv-Inv (true, dst) g =
        split_lt tag (length s.seen)
          (λ e lt. rw e (
            Ensures-write s.seen tag true _ lt λ seen n. ensures (
              record { message = g; seen = omega (arith, i.seen); off = omega arith },
              omega arith,
            )))
          λ e _.
            rw e (ensures (record { message = g; seen = i.seen; off = omega arith }, omega arith))

  is_duplicate-returns :
      (tag : ℕ) (s : Scan) → Ensures (λ (b : Bool). Unit {0}) (is_duplicate tag s.seen)
  unfolding is_duplicate
  is_duplicate-returns tag s =
      split_lt tag (length s.seen)
        (λ e lt. rw e (let (x, found) = index-ret s.seen tag lt in rw found (ensures tt)))
        λ e _. rw e (ensures tt)

  scan-Inv : (s : Scan) → Inv s → Ensures (Progress Inv left Result (left s)) (scan packet s)
  unfolding scan
  scan-Inv s i =
      split_le (length packet) s.off (λ e _. rw e (ensures i.message))
        λ e more. rw e (
          split_lt (length packet) (s.off + 4) (λ t _. rw t (ensures i.message))
            λ t fits. rw t (
              Ensures-be16_at packet s.off _ (omega arith) a λ tag _.
                Ensures-be16_at packet (s.off + 2) _ (omega arith) a λ size _.
                  split_lt (length packet) (s.off + 4 + size) (λ y _. rw y (ensures i.message))
                    λ y inside. rw y (
                      Ensures-slice packet (s.off + 4) (s.off + 4 + size) _ (omega arith) inside a
                        λ v _ b. Ensures-bind (is_duplicate-returns tag s) λ d _.
                          split_if d
                            (λ z. rw z (
                              ensures (
                                record { message = i.message; seen = i.seen; off = omega arith },
                                omega arith,
                              )))
                            λ z. rw z (
                              Ensures-bind (store_tlv-Good v s.dst b i.message tag)
                                λ r g. mark_tlv-Inv s i size tag inside r g))))

  decode_mndp_into-IsMessage : (dst : MndpMessage) → Ensures Result (decode_mndp_into packet dst)
  unfolding decode_mndp_into start
  decode_mndp_into-IsMessage dst =
      split_lt (length packet) 4 (λ e _. rw e (ensures (reset-IsMessage dst)))
        λ e fits. rw e (
          split_lt max_mndp_packet_size (length packet)
            (λ t _. rw t (ensures (reset-IsMessage dst)))
            λ t small. rw t (
              Ensures-be16_at packet 0 _ (omega arith) a λ type_tag tb.
                Ensures-be16_at packet 2 _ (omega arith) a λ sequence sb.
                  Ensures-loop Inv left (scan packet) scan-Inv (length packet + 1)
                    (start dst type_tag sequence) (omega arith)
                    (record {
                      message = start-IsMessage dst type_tag sequence tb sb;
                      seen = refl;
                      off = fits;
                    })))

-- What is behind `dst` afterwards: nothing behind nil, else a message whose fields lie in their
-- widths.
abbrev pub Leaves : Option MndpMessage → Option MndpMessage → Type 0
Leaves none none = Unit
Leaves none (some m) = ⊥
Leaves (some dst) none = ⊥
Leaves (some dst) (some m) = IsMessage m

-- On any bytes `DecodeMNDP` returns, without a panic and within its rounds. A nil `dst` stays nil;
-- else the message that it leaves has texts of bytes, a MAC of six bytes, a 32-bit uptime, and
-- addresses of 4 or 16 bytes.
pub decode_mndp-total :
    (packet : Bytes) (dst : Option MndpMessage)
    → All IsByte packet
    → Ensures (λ (r : Decoded (Option MndpMessage)). Leaves dst r.0) (decode_mndp packet dst)
unfolding decode_mndp
decode_mndp-total packet none a = ensures tt
decode_mndp-total packet (some dst) a =
    Ensures-bind (decode_mndp_into-IsMessage packet a dst) λ r g. ensures g
