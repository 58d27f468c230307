-- ===== src/Ethernet/Udp/Total.antt =====
-- `DecodeUDP` on any frame.
use omnidiscover.Prelude.{
  ℕ, zero, suc, ◌+◌, ◌*◌, ◌/◌, ◌%◌, ◌≤◌, ◌<◌, ◌≡◌, refl, not, ◌||◌, if◌then◌else◌, [], take, drop,
  Option, some, arith, ltb, ◌==◌, split_if, split_lt, split_eq, length, Bytes, All, IsByte,
}
use omnidiscover.Go.Ensures.{
  Ensures, ensures, Ensures-bind, Ensures-index, Ensures-slice, Ensures-be16_at, slice_lem,
  length-slice,
}
use omnidiscover.Protocol.{
  no_status, fatal, add_issue, DecodeIssue, too_short, invalid_header, fragmented, wrong_protocol,
}
use omnidiscover.Net.{Addr, ip4, ip6, IsAddr}
use omnidiscover.Ethernet.{EthernetFrame, Decoded, fail, ether_type_ipv4, ether_type_ipv6}
use omnidiscover.Ethernet.Udp.{
  UdpPacket, empty_packet, decode_datagram, decode_ipv4_body, decode_ipv4, ipv6_loop, decode_ipv6,
  decode_udp_into, decode_udp,
}

-- A packet that holds nothing but parts of `n` bytes of input.
pub record IsPacket (n : ℕ) (u : UdpPacket) : Type 0 where
  pub source_ip : IsAddr u.source_ip
  pub destination_ip : IsAddr u.destination_ip
  pub source_port : u.source_port < 65536
  pub destination_port : u.destination_port < 65536
  pub payload : All IsByte u.payload
  pub within : length u.payload ≤ n

-- Nothing of a datagram
abbrev pub IsBlank : UdpPacket → Type 0
IsBlank u = (u.source_port ≡ 0) × (u.destination_port ≡ 0) × (u.payload ≡ [])

-- A datagram comes with these addresses, and a fatal status with nothing of a datagram.
pub data Answer (source destination : Addr) (r : Decoded UdpPacket) : Type 0 where
  answered :
      r.1 ≡ no_status
      → r.0.source_ip ≡ source
      → r.0.destination_ip ≡ destination
      → Answer source destination r
  refused : r.1.severity ≡ fatal → IsBlank r.0 → Answer source destination r

abbrev pub GoodPacket : ℕ → Addr → Addr → Decoded UdpPacket → Type 0
GoodPacket n s d r = IsPacket n r.0 × Answer s d r

fail-Good :
    {s d : Addr} (n : ℕ) (u : UdpPacket) (code : DecodeIssue) (off typ : ℕ)
    → IsPacket n u
    → IsBlank u
    → Ensures (GoodPacket n s d) (fail u code off typ)
unfolding add_issue
fail-Good n u code off typ g blank = ensures (g, refused refl blank)

no_datagram : IsBlank empty_packet
no_datagram = (refl, refl, refl)

-- The addresses in the header of a packet of IPv4, and in that of one of IPv6
abbrev source4 : Bytes → Addr
source4 p = ip4 (take 4 (drop 12 p))

abbrev destination4 : Bytes → Addr
destination4 p = ip4 (take 4 (drop 16 p))

abbrev source6 : Bytes → Addr
source6 p = ip6 (take 16 (drop 8 p)) []

abbrev destination6 : Bytes → Addr
destination6 p = ip6 (take 16 (drop 24 p)) []

abbrev pub source_of : EthernetFrame → Addr
source_of frame =
    if frame.ether_type == ether_type_ipv4 then source4 frame.payload else source6 frame.payload

abbrev pub destination_of : EthernetFrame → Addr
destination_of frame =
    if frame.ether_type == ether_type_ipv4
    then destination4 frame.payload
    else destination6 frame.payload

decode_datagram-Good :
    (n : ℕ) (u : UdpPacket) (payload : Bytes)
    → IsPacket n u
    → IsBlank u
    → All IsByte payload
    → length payload ≤ n
    → Ensures (GoodPacket n u.source_ip u.destination_ip) (decode_datagram u payload)
unfolding decode_datagram
decode_datagram-Good n u payload g blank a h =
    split_lt (length payload) 8 (λ e _. rw e (fail-Good n u too_short 0 17 g blank))
      λ e fits. rw e (
        Ensures-be16_at payload 4 _ (omega arith) a λ size _.
          split_if (ltb size 8 || ltb (length payload) size)
            (λ t. rw t (fail-Good n u invalid_header 4 17 g blank))
            λ t. rw t (
              Ensures-be16_at payload 0 _ (omega arith) a λ source small.
                Ensures-be16_at payload 2 _ (omega arith) a λ destination small'.
                  Ensures-slice payload 8 size _ (ground arith) (ground arith) a
                    λ body size' bytes. ensures (ground arith, answered refl refl refl)))

decode_ipv4_body-Good :
    (p : Bytes) (ihl total : ℕ)
    → All IsByte p
    → 20 ≤ ihl
    → ihl ≤ total
    → total ≤ length p
    → Ensures
        (GoodPacket (length p) (source4 p) (destination4 p))
        (decode_ipv4_body empty_packet p ihl total)
unfolding decode_ipv4_body
decode_ipv4_body-Good p ihl total a h h' h'' = Ensures-be16_at p 6 _ (omega arith) a λ frag _.
    split_if (not (frag % 0x4000 == 0))
      (λ t. rw t (fail-Good _ _ fragmented 6 ether_type_ipv4 (omega arith) no_datagram))
      λ t. rw t (
        Ensures-index p 9 _ (omega arith) a λ protocol _.
          split_if (not (protocol == 17))
            (λ t'. rw t' (fail-Good _ _ wrong_protocol 9 protocol (omega arith) no_datagram))
            λ t'. rw t' (
              let source = slice_lem p 12 16 (omega arith) (omega arith) in
              let destination = slice_lem p 16 20 (omega arith) (omega arith) in
              let size = length-slice p 12 16 (omega arith) (omega arith) in
              let size' = length-slice p 16 20 (omega arith) (omega arith) in
              rw (source, destination)
                (Ensures-slice p ihl total _ h' h'' a λ payload size'' bytes.
                  decode_datagram-Good (length p) _ payload (omega (arith, size, size')) no_datagram
                    bytes (omega arith))))

decode_ipv4-Good :
    (p : Bytes)
    → All IsByte p
    → Ensures (GoodPacket (length p) (source4 p) (destination4 p)) (decode_ipv4 empty_packet p)
unfolding decode_ipv4
decode_ipv4-Good p a =
    split_lt (length p) 20
      (λ e _. rw e (fail-Good _ _ too_short 0 ether_type_ipv4 (omega arith) no_datagram))
      λ e fits. rw e (
        Ensures-index p 0 _ (omega arith) a λ first _.
          split_if (not (first / 16 == 4))
            (λ t. rw t (fail-Good _ _ too_short 0 ether_type_ipv4 (omega arith) no_datagram))
            λ t. rw t (
              split_if (ltb (first % 16 * 4) 20 || ltb (length p) (first % 16 * 4))
                (λ t'.
                  rw t' (fail-Good _ _ invalid_header 0 ether_type_ipv4 (omega arith) no_datagram))
                λ t'. rw t' (
                  Ensures-be16_at p 2 _ (omega arith) a λ total _.
                    split_if (ltb total (first % 16 * 4) || ltb (length p) total)
                      (λ t''.
                        rw t'' (
                          fail-Good _ _ invalid_header 2 ether_type_ipv4 (omega arith) no_datagram))
                      λ t''. rw t'' (
                        decode_ipv4_body-Good p (first % 16 * 4) total a (ground arith)
                          (ground arith) (ground arith)))))

ipv6_loop-Good :
    (k : ℕ) (u : UdpPacket) (p : Bytes) (total next off ext : ℕ)
    → IsPacket (length p) u
    → IsBlank u
    → All IsByte p
    → total ≤ length p
    → off ≤ total
    → 9 ≤ k + ext
    → ext ≤ 8
    → Ensures
        (GoodPacket (length p) u.source_ip u.destination_ip)
        (ipv6_loop k u p total next off ext)
unfolding ipv6_loop
ipv6_loop-Good zero u p total next off ext g blank a h h' fuel le = absurd (omega arith)
ipv6_loop-Good (suc k) u p total next off ext g blank a h h' fuel le =
    split_eq next 17
      (λ e _. rw e (
        Ensures-slice p off total _ h' h a λ payload size bytes.
          decode_datagram-Good (length p) u payload g blank bytes (omega arith)))
      λ e _. rw e (
        split_eq ext 8 (λ e' _. rw e' (fail-Good _ u invalid_header off next g blank))
          λ e' few. rw e' (
            split_if (next == 0 || next == 43 || next == 60)
              (λ t. rw t (
                split_lt total (off + 2) (λ s _. rw s (fail-Good _ u too_short off next g blank))
                  λ s room. rw s (
                    Ensures-index p (off + 1) _ (omega arith) a λ size _.
                      split_if
                        (ltb ((size + 1) % 256 * 8) 8 || ltb total (off + (size + 1) % 256 * 8))
                        (λ s'. rw s' (fail-Good _ u invalid_header off next g blank))
                        λ s'. rw s' (
                          Ensures-index p off _ (omega arith) a λ next' _.
                            ipv6_loop-Good k u p total next' (off + (size + 1) % 256 * 8) (ext + 1)
                              g blank a h (ground arith) (omega arith) (omega arith)))))
              λ t. rw t (
                split_eq next 44 (λ s _. rw s (fail-Good _ u fragmented off next g blank))
                  λ s _. rw s (
                    split_eq next 51
                      (λ c _. rw c (
                        split_lt total (off + 2)
                          (λ s' _. rw s' (fail-Good _ u too_short off next g blank))
                          λ s' room. rw s' (
                            Ensures-index p (off + 1) _ (omega arith) a λ size _.
                              split_lt total (off + (size + 2) % 256 * 4)
                                (λ r _. rw r (fail-Good _ u invalid_header off next g blank))
                                λ r inside. rw r (
                                  Ensures-index p off _ (omega arith) a λ next' _.
                                    ipv6_loop-Good k u p total next' (off + (size + 2) % 256 * 4)
                                      (ext + 1) g blank a h inside (omega arith) (omega arith)))))
                      λ c _. rw c (fail-Good _ u wrong_protocol off next g blank)))))

decode_ipv6-Good :
    (p : Bytes)
    → All IsByte p
    → Ensures (GoodPacket (length p) (source6 p) (destination6 p)) (decode_ipv6 empty_packet p)
unfolding decode_ipv6
decode_ipv6-Good p a =
    split_lt (length p) 40
      (λ e _. rw e (fail-Good _ _ too_short 0 ether_type_ipv6 (omega arith) no_datagram))
      λ e fits. rw e (
        Ensures-index p 0 _ (omega arith) a λ first _.
          split_if (not (first / 16 == 6))
            (λ t. rw t (fail-Good _ _ too_short 0 ether_type_ipv6 (omega arith) no_datagram))
            λ t. rw t (
              Ensures-be16_at p 4 _ (omega arith) a λ size _.
                split_lt (length p) (40 + size)
                  (λ t' _.
                    rw t'
                      (fail-Good _ _ invalid_header 4 ether_type_ipv6 (omega arith) no_datagram))
                  λ t' inside. rw t' (
                    let source = slice_lem p 8 24 (omega arith) (omega arith) in
                    let destination = slice_lem p 24 40 (omega arith) (omega arith) in
                    let size' = length-slice p 8 24 (omega arith) (omega arith) in
                    let size'' = length-slice p 24 40 (omega arith) (omega arith) in
                    rw (source, destination)
                      (Ensures-index p 6 _ (omega arith) a λ next _.
                        ipv6_loop-Good 9 _ p (40 + size) next 40 0 (omega (arith, size', size''))
                          no_datagram a inside (omega arith) (omega arith) (omega arith)))))

pub decode_udp_into-Good :
    (frame : EthernetFrame) (dst : UdpPacket)
    → All IsByte frame.payload
    → Ensures
        (GoodPacket (length frame.payload) (source_of frame) (destination_of frame))
        (decode_udp_into frame dst)
unfolding decode_udp_into
decode_udp_into-Good frame dst a =
    split_if (frame.ether_type == ether_type_ipv4) (λ t. rw t (decode_ipv4-Good frame.payload a))
      λ t. rw t (
        split_if (frame.ether_type == ether_type_ipv6)
          (λ t'. rw t' (decode_ipv6-Good frame.payload a))
          λ t'. rw t' (fail-Good _ _ wrong_protocol 0 frame.ether_type (omega arith) no_datagram))

-- On any frame whose payload is bytes `DecodeUDP` returns without a panic, also at any chain of
-- IPv6 extension headers. Either the status has no issue, and what it leaves in `*dst` has the source
-- and the destination address that stand in the IPv4 or IPv6 header, of 4 or of 16 bytes, 16-bit ports,
-- and a payload of bytes no longer than the frame's; or the status is fatal, and it leaves no ports and
-- no payload.
pub decode_udp-total :
    (frame : EthernetFrame) (dst : UdpPacket)
    → All IsByte frame.payload
    → Ensures
        (λ (r : Decoded (Option UdpPacket)).
          (u : UdpPacket) × (r.0 ≡ some u)
          × IsPacket (length frame.payload) u
          × Answer (source_of frame) (destination_of frame) (u, r.1))
        (decode_udp (some frame) (some dst))
unfolding decode_udp
decode_udp-total frame dst a =
    Ensures-bind (decode_udp_into-Good frame dst a) λ r g. ensures (r.0, refl, g.0, g.1)
