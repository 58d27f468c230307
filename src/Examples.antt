-- ===== src/Examples.antt =====
-- Runs of the decoders on small packets, and of the theorems at them.
mod State
mod Classifier
mod Slots
mod Services
mod Engine
use omnidiscover.Prelude.{
  ℕ, ◌++◌, ◌≡◌, refl, Bool, true, false, List, [], ◌∷◌, Option, none, some, ltb, arith, ◌&&◌, ◌<◌,
  ◌↔◌, ◌%◌, ◌||◌, length, Bytes, All, IsByte, map, equal,
}
use omnidiscover.Go.{Go, ret, panic, ◌>>=◌, index, slice, write, be16, be32, le32, loop}
use omnidiscover.Go.Ensures.{Ensures}
use omnidiscover.Protocol.{
  no_issue, DecodeStatus, usable, partial, fatal, too_short, duplicate_tlv, no_status,
}
use omnidiscover.Protocol.Issues.{Issue, issue_of, add_all, worst, add_all-first_worst}
use omnidiscover.Net.{
  Addr, no_addr, ip4, ip6, unmap, is_valid, addr_eq, contains_addr, append_unique_addr,
}
use omnidiscover.Net.Unique.{Unique, append_unique_addr-Unique}
use omnidiscover.Ethernet.{
  EthernetFrame, empty_frame, Decoded, decode_frame_into, decode_ethernet_frame,
}
use omnidiscover.Ethernet.Frame.{GoodResult, IsSettled, decode_ethernet_frame-total}
use omnidiscover.Ethernet.Udp.{UdpPacket, empty_packet, decode_udp}
use omnidiscover.Ethernet.Udp.Total.{IsPacket, Answer, source_of, destination_of, decode_udp-total}
use omnidiscover.Lldp.{decode_lldpdu, decode_lldp_frame}
use omnidiscover.Lldp.Message.{LldpMessage, empty_message}
use omnidiscover.Lldp
use omnidiscover.Lldp.Total.{decode_lldp_frame-total}
use omnidiscover.Lldp.Order.{decode_lldpdu-Accepts}
use omnidiscover.Lldp.Order.Chain.{Accepts}
use omnidiscover.Cdp.{decode_cdp_frame, decode_cdp}
use omnidiscover.Cdp.Message.{CdpMessage}
use omnidiscover.Cdp.Checksum.{checksum16}
use omnidiscover.Cdp.Checksum.Sum.{total, checksum16-total}
use omnidiscover.Cdp
use omnidiscover.Cdp.Total.{decode_cdp_frame-total}
use omnidiscover.Mndp.{decode_mndp, MndpMessage}
use omnidiscover.Mndp
use omnidiscover.Mndp.Total.{decode_mndp-total}
use omnidiscover.Mdns
use omnidiscover.Mdns.{decode_mdns, MdnsMessage, DnsRecord}
use omnidiscover.Mdns.Total.{decode_mdns-total, LeavesBehind}
use omnidiscover.Mdns.Name.{decode_dns_name, lower_dns_name, validate_txt}
use omnidiscover.Mdns.Name.Labels.{IsLabel, name, IsRead}
use omnidiscover.Mdns.Name.Total.{IsName}
use omnidiscover.Mdns.Name.Reading.{IsComplete, decode_dns_name-IsComplete}
use omnidiscover.Mdns.Name.RoundTrip.{encode, decode_dns_name-encode}
use omnidiscover.Mdns.Name.Strings.{Strings, validate_txt-Strings}

abbrev mdns_packet : Bytes
mdns_packet =
    0 ∷ 0 ∷ 132 ∷ 0 ∷ 0 ∷ 0 ∷ 0 ∷ 1 ∷ 0 ∷ 0 ∷ 0 ∷ 0 ∷ 5 ∷ 95 ∷ 72 ∷ 84 ∷ 84 ∷ 80 ∷ 4 ∷ 95 ∷ 116 ∷ 99
    ∷ 112 ∷ 5 ∷ 108 ∷ 111 ∷ 99 ∷ 97 ∷ 108 ∷ 0 ∷ 0 ∷ 12 ∷ 0 ∷ 1 ∷ 0 ∷ 0 ∷ 0 ∷ 120 ∷ 0 ∷ 6 ∷ 3 ∷ 102
    ∷ 111 ∷ 111 ∷ 192 ∷ 12 ∷ []

abbrev lldp_frame : Bytes
lldp_frame =
    1 ∷ 128 ∷ 194 ∷ 0 ∷ 0 ∷ 14 ∷ 2 ∷ 0 ∷ 0 ∷ 0 ∷ 0 ∷ 1 ∷ 136 ∷ 204 ∷ 2 ∷ 7 ∷ 4 ∷ 2 ∷ 0 ∷ 0 ∷ 0 ∷ 0
    ∷ 1 ∷ 4 ∷ 5 ∷ 5 ∷ 101 ∷ 116 ∷ 104 ∷ 48 ∷ 6 ∷ 2 ∷ 0 ∷ 120 ∷ 0 ∷ 0 ∷ []

abbrev cdp_frame : Bytes
cdp_frame =
    1 ∷ 0 ∷ 12 ∷ 204 ∷ 204 ∷ 204 ∷ 2 ∷ 0 ∷ 0 ∷ 0 ∷ 0 ∷ 2 ∷ 0 ∷ 26 ∷ 170 ∷ 170 ∷ 3 ∷ 0 ∷ 0 ∷ 12 ∷ 32
    ∷ 0 ∷ 2 ∷ 180 ∷ 18 ∷ 42 ∷ 0 ∷ 1 ∷ 0 ∷ 6 ∷ 115 ∷ 119 ∷ 0 ∷ 3 ∷ 0 ∷ 8 ∷ 71 ∷ 105 ∷ 48 ∷ 47 ∷ []

abbrev cdp_packet : Bytes
cdp_packet = 2 ∷ 180 ∷ 18 ∷ 42 ∷ 0 ∷ 1 ∷ 0 ∷ 6 ∷ 115 ∷ 119 ∷ 0 ∷ 3 ∷ 0 ∷ 8 ∷ 71 ∷ 105 ∷ 48 ∷ 47 ∷ []

abbrev mndp_packet : Bytes
mndp_packet =
    0 ∷ 0 ∷ 0 ∷ 1 ∷ 0 ∷ 5 ∷ 0 ∷ 2 ∷ 114 ∷ 49 ∷ 0 ∷ 10 ∷ 0 ∷ 4 ∷ 16 ∷ 0 ∷ 0 ∷ 0 ∷ 0 ∷ 17 ∷ 0 ∷ 4
    ∷ 192 ∷ 168 ∷ 1 ∷ 1 ∷ []

abbrev ip_packet : Bytes
ip_packet =
    69 ∷ 0 ∷ 0 ∷ 32 ∷ 0 ∷ 0 ∷ 0 ∷ 0 ∷ 64 ∷ 17 ∷ 0 ∷ 0 ∷ 192 ∷ 168 ∷ 0 ∷ 1 ∷ 224 ∷ 0 ∷ 0 ∷ 251 ∷ 20
    ∷ 233 ∷ 20 ∷ 233 ∷ 0 ∷ 12 ∷ 0 ∷ 0 ∷ 1 ∷ 2 ∷ 3 ∷ 4 ∷ []

abbrev txt_data : Bytes
txt_data = 3 ∷ 97 ∷ 61 ∷ 49 ∷ 0 ∷ 2 ∷ 111 ∷ 107 ∷ []

are_bytes : Bytes → Bool
are_bytes [] = true
are_bytes (x ∷ xs) = ltb x 256 && are_bytes xs

bytes-All : (b : Bytes) → are_bytes b ≡ true → All IsByte b
unfolding are_bytes
bytes-All [] e = tt
bytes-All (x ∷ xs) e = ground (arith, bytes-All xs)

abbrev mdns_message : MdnsMessage
mdns_message = record { id = 0; flags = 0; records = [] }

abbrev cdp_message : CdpMessage
cdp_message = record {
  source_mac = 0 ∷ 0 ∷ 0 ∷ 0 ∷ 0 ∷ 0 ∷ [];
  capture_vlans = 0 ∷ 0 ∷ 0 ∷ [];
  capture_vlan_count = 0;
  ttl_seconds = 0;
  device_id = [];
  port_id = [];
  system_name = [];
  addresses = [];
  details = record {
    version = 0;
    checksum = 0;
    native_vlan = 0;
    has_native_vlan = false;
    duplex = 0;
    has_duplex = false;
    capabilities = 0;
    software_version = [];
    platform = [];
    management_address = [];
  };
}

abbrev mndp_message : MndpMessage
mndp_message = record {
  source_ip = no_addr;
  mac = 0 ∷ 0 ∷ 0 ∷ 0 ∷ 0 ∷ 0 ∷ [];
  has_mac = false;
  addresses = [];
  is_refresh = false;
  details = record {
    type_tag = 0;
    sequence = 0;
    identity = [];
    version = [];
    platform = [];
    software_id = [];
    board = [];
    interface_name = [];
    uptime_seconds = 0;
    has_uptime = false;
  };
}

abbrev ip_frame : EthernetFrame
ip_frame = record empty_frame { ether_type = 0x800; payload = ip_packet }

abbrev two_issues : List Issue
two_issues =
    record { severity = partial; code = duplicate_tlv; offset = 4; tlv_type = 1 }
    ∷ record { severity = fatal; code = too_short; offset = 9; tlv_type = 0 }
    ∷ []

abbrev router : Addr
router = ip4 (192 ∷ 168 ∷ 1 ∷ 1 ∷ [])

-- The same address mapped into IPv6.
abbrev mapped_router : Addr
mapped_router = ip6 (0 ∷ 0 ∷ 0 ∷ 0 ∷ 0 ∷ 0 ∷ 0 ∷ 0 ∷ 0 ∷ 0 ∷ 255 ∷ 255 ∷ 192 ∷ 168 ∷ 1 ∷ 1 ∷ []) []

abbrev http_local : Bytes
http_local =
    b'_' ∷ b'h' ∷ b't' ∷ b't' ∷ b'p' ∷ b'.' ∷ b'_' ∷ b't' ∷ b'c' ∷ b'p' ∷ b'.' ∷ b'l' ∷ b'o' ∷ b'c'
    ∷ b'a' ∷ b'l' ∷ []

names : Decoded (Option MdnsMessage) → Go (List Bytes)
names (some m, st) = ret (map (λ (r : DnsRecord). r.target ++ r.name) m.records)
names (none, st) = panic

mdns_run :
    (decode_mdns mdns_packet (some mdns_message) >>= names)
    ≡ ret ((b'f' ∷ b'o' ∷ b'o' ∷ b'.' ∷ http_local ++ http_local) ∷ [])
unfolding decode_mdns names slice be16 loop decode_dns_name be32 Mdns.reset lower_dns_name
mdns_run = refl

status_of : {M : Type 0} → Decoded M → Go DecodeStatus
status_of (m, st) = ret st

lldp_run : (decode_lldp_frame lldp_frame (some empty_message) >>= status_of) ≡ ret no_status
unfolding decode_lldp_frame status_of decode_frame_into usable slice index be16 be32 loop write
    Lldp.Message.reset decode_lldpdu
lldp_run = refl

cdp_run : (decode_cdp_frame cdp_frame (some cdp_message) >>= status_of) ≡ ret no_status
unfolding decode_cdp_frame status_of decode_frame_into usable slice index be16 be32 loop write
    Cdp.Message.reset checksum16 decode_cdp equal
cdp_run = refl

mndp_run : (decode_mndp mndp_packet (some mndp_message) >>= status_of) ≡ ret no_status
unfolding decode_mndp status_of slice be16 loop write le32
mndp_run = refl

udp_run : (decode_udp (some ip_frame) (some empty_packet) >>= status_of) ≡ ret no_status
unfolding decode_udp status_of index slice be16
udp_run = refl

decode_mdns-total_example :
    Ensures (LeavesBehind (some mdns_message)) (decode_mdns mdns_packet (some mdns_message))
unfolding are_bytes
decode_mdns-total_example =
    decode_mdns-total mdns_packet (some mdns_message) (bytes-All mdns_packet refl)

decode_lldp_frame-total_example :
    Ensures
      (λ (r : Decoded (Option LldpMessage)). Lldp.Total.Leaves (some empty_message) r.0)
      (decode_lldp_frame lldp_frame (some empty_message))
unfolding are_bytes
decode_lldp_frame-total_example =
    decode_lldp_frame-total lldp_frame (some empty_message) (bytes-All lldp_frame refl)

decode_cdp_frame-total_example :
    Ensures
      (λ (r : Decoded (Option CdpMessage)). Cdp.Total.Leaves (some cdp_message) r.0)
      (decode_cdp_frame cdp_frame (some cdp_message))
unfolding are_bytes
decode_cdp_frame-total_example =
    decode_cdp_frame-total cdp_frame (some cdp_message) (bytes-All cdp_frame refl)

decode_mndp-total_example :
    Ensures
      (λ (r : Decoded (Option MndpMessage)). Mndp.Total.Leaves (some mndp_message) r.0)
      (decode_mndp mndp_packet (some mndp_message))
unfolding are_bytes
decode_mndp-total_example =
    decode_mndp-total mndp_packet (some mndp_message) (bytes-All mndp_packet refl)

decode_ethernet_frame-total_example :
    Ensures (GoodResult (length cdp_frame)) (decode_ethernet_frame cdp_frame (some empty_frame))
unfolding are_bytes
decode_ethernet_frame-total_example =
    decode_ethernet_frame-total cdp_frame (some empty_frame) (bytes-All cdp_frame refl)

decode_udp-total_example :
    Ensures
      (λ (r : Decoded (Option UdpPacket)).
        (u : UdpPacket) × (r.0 ≡ some u)
        × IsPacket (length ip_frame.payload) u
        × Answer (source_of ip_frame) (destination_of ip_frame) (u, r.1))
      (decode_udp (some ip_frame) (some empty_packet))
unfolding are_bytes
decode_udp-total_example = decode_udp-total ip_frame empty_packet (bytes-All ip_packet refl)

checksum16-total_example :
    Ensures
      (λ (c : ℕ).
        (c < 65536) × (c % 65535 ≡ total cdp_packet % 65535) × ((c ≡ 0) ↔ (total cdp_packet ≡ 0)))
      (checksum16 cdp_packet)
unfolding are_bytes
checksum16-total_example = checksum16-total cdp_packet (bytes-All cdp_packet refl) (omega arith)

-- The target of the record, a label and a pointer to the name behind the header
decode_dns_name-IsComplete_example :
    Ensures
      (λ r.
        IsName (length mdns_packet) 40 r × IsRead mdns_packet 40 r × IsComplete mdns_packet 40 r)
      (decode_dns_name mdns_packet 40)
unfolding are_bytes
decode_dns_name-IsComplete_example =
    decode_dns_name-IsComplete mdns_packet 40 (bytes-All mdns_packet refl)

validate_txt-Strings_example : Ensures (λ v. (v ≡ true) ↔ Strings txt_data) (validate_txt txt_data)
validate_txt-Strings_example = validate_txt-Strings txt_data

add_all-first_worst_example :
    (some (issue_of (add_all no_status two_issues)) ≡ worst two_issues)
    × ((add_all no_status two_issues).issue_count ≡ 2)
add_all-first_worst_example =
    add_all-first_worst
      (record { severity = partial; code = duplicate_tlv; offset = 4; tlv_type = 1 })
      (record { severity = fatal; code = too_short; offset = 9; tlv_type = 0 } ∷ [])
      (refl, (refl, tt))

append_unique_addr-Unique_example :
    Unique (append_unique_addr (router ∷ []) mapped_router)
    × (contains_addr (append_unique_addr (router ∷ []) mapped_router) router ≡ (
        contains_addr (router ∷ []) router
        || (is_valid mapped_router && addr_eq (unmap mapped_router) router)))
unfolding contains_addr
append_unique_addr-Unique_example =
    append_unique_addr-Unique (router ∷ []) mapped_router router (refl, tt)

abbrev lldp_pdu : Bytes
lldp_pdu = 2 ∷ 7 ∷ 4 ∷ 2 ∷ 0 ∷ 0 ∷ 0 ∷ 0 ∷ 1 ∷ 4 ∷ 2 ∷ 5 ∷ 101 ∷ 6 ∷ 2 ∷ 0 ∷ 120 ∷ 0 ∷ 0 ∷ []

lldpdu_run : (decode_lldpdu lldp_pdu (some empty_message) >>= status_of) ≡ ret no_status
unfolding decode_lldpdu status_of slice index be16 be32 loop write Lldp.Message.reset
lldpdu_run = refl

decode_lldpdu-Accepts_example :
    Ensures
      (λ (r : Decoded (Option LldpMessage)). usable r.1 ≡ true → Accepts lldp_pdu)
      (decode_lldpdu lldp_pdu (some empty_message))
unfolding are_bytes
decode_lldpdu-Accepts_example =
    decode_lldpdu-Accepts lldp_pdu (some empty_message) (bytes-All lldp_pdu refl)

abbrev two_labels : List Bytes
two_labels = (b'a' ∷ b'b' ∷ []) ∷ (b'c' ∷ []) ∷ []

decode_dns_name-encode_example :
    decode_dns_name ((7 ∷ 8 ∷ []) ++ (encode two_labels ++ (9 ∷ []))) 2
    ≡ ret (b'a' ∷ b'b' ∷ b'.' ∷ b'c' ∷ [], 8, no_issue)
decode_dns_name-encode_example =
    decode_dns_name-encode (7 ∷ 8 ∷ []) (9 ∷ []) two_labels (omega arith) (omega arith)
      (omega arith)
