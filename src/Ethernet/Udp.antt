-- ===== src/Ethernet/Udp.antt =====
-- `DecodeUDP` of ethernet.go: a UDP datagram in an IPv4 or IPv6 packet that is no fragment.
-- `int(p[off+1]+1) * 8` adds in a byte, which wraps.
pub mod Total
use omnidiscover.Prelude.{
  ℕ, zero, suc, ◌+◌, ◌-◌, ◌*◌, ◌/◌, ◌%◌, not, ◌||◌, Option, none, some, [], ltb, ◌==◌,
  if◌then◌else◌, length, Bytes,
}
use omnidiscover.Go.{Go, ret, hang, ◌>>=◌, index, slice, be16, be16_at}
use omnidiscover.Protocol.{
  no_status, nil_destination, too_short, invalid_header, fragmented, wrong_protocol,
}
use omnidiscover.Net.{Addr, no_addr, ip4, ip6}
use omnidiscover.Ethernet.{EthernetFrame, Decoded, fail, ether_type_ipv4, ether_type_ipv6}

pub record UdpPacket : Type 0 where
  pub source_ip : Addr
  pub destination_ip : Addr
  pub source_port : ℕ
  pub destination_port : ℕ
  pub payload : Bytes

-- `UDPPacket{}`
abbrev pub empty_packet : UdpPacket
empty_packet = record {
  source_ip = no_addr;
  destination_ip = no_addr;
  source_port = 0;
  destination_port = 0;
  payload = [];
}

abbrev pub reset : UdpPacket → UdpPacket
reset u = empty_packet

-- Behind the switch on the EtherType.
decode_datagram : UdpPacket → Bytes → Go (Decoded UdpPacket)
decode_datagram dst payload = if ltb (length payload) 8 then fail dst too_short 0 17 else do
  udp_len ← be16_at payload 4
  if ltb udp_len 8 || ltb (length payload) udp_len then fail dst invalid_header 4 17 else do
    source ← be16_at payload 0
    destination ← be16_at payload 2
    body ← slice payload 8 udp_len
    ret (
      record dst { source_port = source; destination_port = destination; payload = body },
      no_status,
    )

-- IPv4, with the header's length and the packet's known to fit.
decode_ipv4_body : UdpPacket → Bytes → ℕ → ℕ → Go (Decoded UdpPacket)
unfolding decode_datagram
decode_ipv4_body dst p ihl total = do
  frag ← be16_at p 6
  if not (frag % 0x4000 == 0) then fail dst fragmented 6 ether_type_ipv4 else do
    protocol ← index p 9
    if not (protocol == 17) then fail dst wrong_protocol 9 protocol else do
      source ← slice p 12 16
      destination ← slice p 16 20
      payload ← slice p ihl total
      decode_datagram (record dst { source_ip = ip4 source; destination_ip = ip4 destination })
          payload

-- `case EtherTypeIPv4`
decode_ipv4 : UdpPacket → Bytes → Go (Decoded UdpPacket)
unfolding decode_ipv4_body
decode_ipv4 dst p = if ltb (length p) 20 then fail dst too_short 0 ether_type_ipv4 else do
  first ← index p 0
  if not (first / 16 == 4) then fail dst too_short 0 ether_type_ipv4 else do
    let ihl : ℕ = first % 16 * 4
    if ltb ihl 20 || ltb (length p) ihl then fail dst invalid_header 0 ether_type_ipv4 else do
      total ← be16_at p 2
      if ltb total ihl || ltb (length p) total
          then fail dst invalid_header 2 ether_type_ipv4
          else decode_ipv4_body dst p ihl total

-- `for ext := 0; next != 17; ext++`: at most nine rounds, since the ninth returns.
ipv6_loop : ℕ → UdpPacket → Bytes → (total next off ext : ℕ) → Go (Decoded UdpPacket)
unfolding decode_datagram
ipv6_loop zero dst p total next off ext = hang
ipv6_loop (suc k) dst p total next off ext =
    let extension = do
      size ← index p (off + 1)
      let n : ℕ = (size + 1) % 256 * 8
      let more = (do next' ← index p off; ipv6_loop k dst p total next' (off + n) (ext + 1))
      if ltb n 8 || ltb total (off + n) then fail dst invalid_header off next else more
    in let authentication = do
      size ← index p (off + 1)
      let n : ℕ = (size + 2) % 256 * 4
      let more = (do next' ← index p off; ipv6_loop k dst p total next' (off + n) (ext + 1))
      if ltb total (off + n) then fail dst invalid_header off next else more
      in if next == 17
        then (do payload ← slice p off total; decode_datagram dst payload)
        else if ext == 8
        then fail dst invalid_header off next
        else if next == 0 || next == 43 || next == 60
        then (if ltb total (off + 2) then fail dst too_short off next else extension)
        else if next == 44
        then fail dst fragmented off next
        else if next == 51
        then (if ltb total (off + 2) then fail dst too_short off next else authentication)
        else fail dst wrong_protocol off next

-- `case EtherTypeIPv6`
decode_ipv6 : UdpPacket → Bytes → Go (Decoded UdpPacket)
unfolding ipv6_loop
decode_ipv6 dst p = if ltb (length p) 40 then fail dst too_short 0 ether_type_ipv6 else do
  first ← index p 0
  if not (first / 16 == 6) then fail dst too_short 0 ether_type_ipv6 else do
    size ← be16_at p 4
    let total : ℕ = 40 + size
    if ltb (length p) total then fail dst invalid_header 4 ether_type_ipv6 else do
      source ← slice p 8 24
      destination ← slice p 24 40
      next ← index p 6
      ipv6_loop 9 (record dst { source_ip = ip6 source []; destination_ip = ip6 destination [] }) p
          total next 40 0

-- `DecodeUDP` behind the test for nil
pub decode_udp_into : EthernetFrame → UdpPacket → Go (Decoded UdpPacket)
unfolding decode_ipv4 decode_ipv6
decode_udp_into frame dst =
    if frame.ether_type == ether_type_ipv4
    then decode_ipv4 (reset dst) frame.payload
    else if frame.ether_type == ether_type_ipv6
    then decode_ipv6 (reset dst) frame.payload
    else fail (reset dst) wrong_protocol 0 frame.ether_type

-- `DecodeUDP`
unfoldable pub decode_udp :
    Option EthernetFrame → Option UdpPacket → Go (Decoded (Option UdpPacket))
unfolding decode_udp_into
decode_udp (some frame) (some dst) = do
  (packet, st) ← decode_udp_into frame dst
  ret (some packet, st)
decode_udp none dst = fail dst nil_destination 0 0
decode_udp (some frame) none = fail none nil_destination 0 0
