-- ===== src/Cdp.antt =====
-- cdp.go: CDP packets.
pub mod Message
pub mod Checksum
pub mod Addresses
pub mod Total
use Message.{CdpDetails, CdpMessage, reset}
use Checksum.{checksum16}
use Addresses.{decode_cdp_addresses}
use omnidiscover.Prelude.{
  ℕ, ◌+◌, Bool, true, false, not, ◌&&◌, ◌||◌, List, [], Option, none, some, ltb, leb, ◌==◌,
  if◌then◌else◌, length, Bytes, equal, replicate, ◌∷◌,
}
use omnidiscover.Go.{
  Go, ret, ◌>>=◌, index, slice, write, be16, be32, be16_at, Round, next, done, loop,
}
use omnidiscover.Protocol.{
  partial, fatal, DecodeStatus, no_status, add_issue, usable, nil_destination, too_short, too_large,
  wrong_protocol, invalid_header, invalid_checksum, truncated_tlv, invalid_tlv_length,
  duplicate_tlv,
}
use omnidiscover.Net.{Addr}
use omnidiscover.Ethernet.{EthernetFrame, empty_frame, Decoded, fail, decode_frame_into}

abbrev pub cdp_pid : ℕ
cdp_pid = 0x2000

abbrev pub cisco_oui : Bytes
cisco_oui = 0x00 ∷ 0x00 ∷ 0x0c ∷ []

abbrev pub tlv_device_id : ℕ
tlv_device_id = 0x0001

abbrev pub tlv_addresses : ℕ
tlv_addresses = 0x0002

abbrev pub tlv_port_id : ℕ
tlv_port_id = 0x0003

abbrev pub tlv_capabilities : ℕ
tlv_capabilities = 0x0004

abbrev pub tlv_software : ℕ
tlv_software = 0x0005

abbrev pub tlv_platform : ℕ
tlv_platform = 0x0006

abbrev pub tlv_native_vlan : ℕ
tlv_native_vlan = 0x000a

abbrev pub tlv_duplex : ℕ
tlv_duplex = 0x000b

abbrev pub tlv_system_name : ℕ
tlv_system_name = 0x0014

abbrev pub tlv_management_addresses : ℕ
tlv_management_addresses = 0x0016

-- `cdpSingleton`
unfoldable pub cdp_singleton : ℕ → Bool
cdp_singleton t =
    t == tlv_device_id
    || t == tlv_port_id
    || t == tlv_capabilities
    || t == tlv_software
    || t == tlv_platform
    || t == tlv_native_vlan
    || t == tlv_duplex
    || t == tlv_system_name

-- Whether a TLV is valid, and the message behind it.
abbrev pub Valid : Type 0
Valid = Bool × CdpMessage

abbrev with_details : CdpMessage → CdpDetails → CdpMessage
with_details m d = record m { details = d }

store_capabilities : Bytes → CdpMessage → Go Valid
store_capabilities v dst =
    if not (length v == 4)
    then ret (false, dst)
    else do w ← be32 v; ret (true, with_details dst (record dst.details { capabilities = w }))

store_native_vlan : Bytes → CdpMessage → Go Valid
store_native_vlan v dst = if not (length v == 2) then ret (false, dst) else do
  w ← be16 v
  ret (true, with_details dst (record dst.details { native_vlan = w; has_native_vlan = true }))

store_duplex : Bytes → CdpMessage → Go Valid
store_duplex v dst = if not (length v == 1) then ret (false, dst) else do
  x ← index v 0
  ret (true, with_details dst (record dst.details { duplex = x; has_duplex = true }))

-- `switch typ`. The two address lists keep what was appended before an invalid entry.
pub store_tlv : ℕ → Bytes → CdpMessage → Go Valid
unfolding store_capabilities store_native_vlan store_duplex
store_tlv typ v dst =
    if typ == tlv_device_id
    then ret (true, record dst { device_id = v })
    else if typ == tlv_addresses
    then (do
      (valid, as') ← decode_cdp_addresses v dst.addresses
      ret (valid, record dst { addresses = as' }))
    else if typ == tlv_port_id
    then ret (true, record dst { port_id = v })
    else if typ == tlv_capabilities
    then store_capabilities v dst
    else if typ == tlv_software
    then ret (true, with_details dst (record dst.details { software_version = v }))
    else if typ == tlv_platform
    then ret (true, with_details dst (record dst.details { platform = v }))
    else if typ == tlv_native_vlan
    then store_native_vlan v dst
    else if typ == tlv_duplex
    then store_duplex v dst
    else if typ == tlv_system_name
    then ret (true, record dst { system_name = v })
    else if typ == tlv_management_addresses
    then (do
      (valid, as') ← decode_cdp_addresses v dst.details.management_address
      ret (valid, with_details dst (record dst.details { management_address = as' })))
    else ret (true, dst)

-- The variables of the loop of `DecodeCDP`.
pub record Scan : Type 0 where
  pub off : ℕ
  pub seen : List Bool
  pub dst : CdpMessage
  pub st : DecodeStatus

abbrev pub Next : Type 0
Next = Round Scan (Decoded CdpMessage)

-- Behind the switch.
mark_tlv : (typ size : ℕ) → Scan → Valid → Go Next
mark_tlv typ size s (false, dst) = ret (
    next (record s {
      off = s.off + size;
      dst = dst;
      st = add_issue s.st partial invalid_tlv_length s.off typ;
    }))
mark_tlv typ size s (true, dst) =
    if ltb typ (length s.seen)
    then (do
      seen ← write s.seen typ true
      ret (next (record s { off = s.off + size; seen = seen; dst = dst })))
    else ret (next (record s { off = s.off + size; dst = dst }))

-- `typ < uint16(len(seen)) && seen[typ] && cdpSingleton(typ)`
is_duplicate : ℕ → List Bool → Go Bool
unfolding cdp_singleton
is_duplicate typ seen =
    if ltb typ (length seen)
    then (do x ← index seen typ; ret (x && cdp_singleton typ))
    else ret false

-- A round of `for off := 4; off < len(packet);`
pub scan : Bytes → Scan → Go Next
unfolding store_tlv mark_tlv is_duplicate
scan packet s =
    if leb (length packet) s.off
    then ret (done (s.dst, s.st))
    else if ltb (length packet) (s.off + 4)
    then ret (done (s.dst, add_issue s.st fatal truncated_tlv s.off 0))
    else do
      typ ← be16_at packet s.off
      size ← be16_at packet (s.off + 2)
      if ltb size 4 || ltb (length packet) (s.off + size)
          then ret (done (s.dst, add_issue s.st fatal invalid_tlv_length s.off typ))
          else do
            v ← slice packet (s.off + 4) (s.off + size)
            duplicate ← is_duplicate typ s.seen
            if duplicate
                then ret (
                    next (record s {
                      off = s.off + size;
                      st = add_issue s.st partial duplicate_tlv s.off typ;
                    }))
                else do r ← store_tlv typ v s.dst; mark_tlv typ size s r

-- The status behind the two tests of the header.
header_status : ℕ → ℕ → DecodeStatus
header_status version sum =
    let st : DecodeStatus =
      if not (version == 1) && not (version == 2)
      then add_issue no_status partial invalid_header 0 version
      else no_status in
    if not (sum == 0xffff) then add_issue st partial invalid_checksum 2 0 else st

-- The loop's variables behind the header, with the checksum `sum` of the packet.
start : CdpMessage → (version ttl checksum sum : ℕ) → Scan
unfolding header_status
start dst version ttl checksum sum = record {
  off = 4;
  seen = replicate 32 false;
  dst = record (reset dst) {
    ttl_seconds = ttl;
    details = record (reset dst).details { version = version; checksum = checksum };
  };
  st = header_status version sum;
}

-- `DecodeCDP` behind the test for nil. Each round but the last takes four bytes or more.
pub decode_cdp_into : Bytes → CdpMessage → Go (Decoded CdpMessage)
unfolding scan start
decode_cdp_into packet dst =
    if ltb (length packet) 4
    then fail (reset dst) too_short (length packet) 0
    else if ltb 65535 (length packet)
    then fail (reset dst) too_large (length packet) 0
    else do
      version ← index packet 0
      ttl ← index packet 1
      checksum ← be16_at packet 2
      sum ← checksum16 packet
      loop (length packet + 1) (scan packet) (start dst version ttl checksum sum)

-- `DecodeCDP`
unfoldable pub decode_cdp : Bytes → Option CdpMessage → Go (Decoded (Option CdpMessage))
unfolding decode_cdp_into
decode_cdp packet none = fail none nil_destination 0 0
decode_cdp packet (some dst) = do (m, st) ← decode_cdp_into packet dst; ret (some m, st)

-- `if dst != nil { dst.Reset() }`
reset_destination : Option CdpMessage → Option CdpMessage
reset_destination none = none
reset_destination (some dst) = some (reset dst)

-- `if dst != nil { dst.SourceMAC = eth.Source; ... }`
stamp_capture : EthernetFrame → Option CdpMessage → Option CdpMessage
stamp_capture eth none = none
stamp_capture eth (some m) = some (record m {
  source_mac = eth.source;
  capture_vlans = eth.vlans;
  capture_vlan_count = eth.vlan_count;
})

-- `DecodeCDPFrame`
unfoldable pub decode_cdp_frame : Bytes → Option CdpMessage → Go (Decoded (Option CdpMessage))
unfolding reset_destination stamp_capture
decode_cdp_frame frame dst = do
  (eth, st) ← decode_frame_into frame empty_frame
  if not (usable st)
      then ret (reset_destination dst, st)
      else if not (eth.llc.snap)
          || not (equal eth.llc.oui cisco_oui)
          || not (eth.llc.pid == cdp_pid)
      then ret (reset_destination dst, add_issue st fatal wrong_protocol 14 eth.llc.pid)
      else do (m, st') ← decode_cdp eth.payload dst; ret (stamp_capture eth m, st')
