-- ===== src/Lldp.antt =====
-- lldp.go: LLDPDUs. `head >> 9` is `head / 512`, `x & 1 != 0` is `x % 2 == 1`. A message is a
-- value: storage that `Reset` keeps for the next message shows nowhere, since every field of a
-- reused element is written.
pub mod Total
pub mod Order
pub mod Message
use Message.{
  Identifier, ManagementAddress, Vlan, LinkAggregation, MacPhy, LldpDetails, LldpMessage,
  empty_message,
}
use omnidiscover.Prelude.{
  ℕ, zero, suc, ◌+◌, ◌-◌, ◌*◌, ◌/◌, ◌%◌, Bool, true, false, not, ◌&&◌, ◌||◌, List, [], ◌∷◌, ◌++◌,
  Option, none, some, ltb, leb, ◌==◌, if◌then◌else◌, length, Bytes, equal, replicate,
}
use omnidiscover.Go.{
  Go, ret, ◌>>=◌, index, slice, write, be16, be32, be16_at, be32_at, Round, next, done, loop,
}
use omnidiscover.Protocol.{
  DecodeSeverity, partial, fatal, DecodeStatus, no_status, add_issue, usable, too_large,
  truncated_tlv, invalid_mandatory_order, invalid_tlv_length, duplicate_tlv, missing_end,
  nil_destination, wrong_protocol,
}
use omnidiscover.Ethernet.{
  EthernetFrame, empty_frame, Decoded, fail, ether_type_lldp, decode_frame_into,
}

abbrev pub max_lldpdu_size : ℕ
max_lldpdu_size = 1500

abbrev pub lldp_end : ℕ
lldp_end = 0

abbrev pub lldp_chassis_id : ℕ
lldp_chassis_id = 1

abbrev pub lldp_port_id : ℕ
lldp_port_id = 2

abbrev pub lldp_ttl : ℕ
lldp_ttl = 3

abbrev pub lldp_port_description : ℕ
lldp_port_description = 4

abbrev pub lldp_system_name : ℕ
lldp_system_name = 5

abbrev pub lldp_system_description : ℕ
lldp_system_description = 6

abbrev pub lldp_system_capabilities : ℕ
lldp_system_capabilities = 7

abbrev pub lldp_management_address : ℕ
lldp_management_address = 8

abbrev pub lldp_organizational : ℕ
lldp_organizational = 9

-- `isLLDPSingleton`
unfoldable pub is_lldp_singleton : ℕ → Bool
is_lldp_singleton t =
    t == lldp_chassis_id
    || t == lldp_port_id
    || t == lldp_ttl
    || t == lldp_port_description
    || t == lldp_system_name
    || t == lldp_system_description
    || t == lldp_system_capabilities

-- What a TLV's decoder leaves: whether the TLV is valid, and the message.
abbrev pub Valid : Type 0
Valid = Bool × LldpMessage

-- `decodeLLDPManagement`
pub decode_lldp_management : Bytes → LldpMessage → Go Valid
decode_lldp_management v dst = if ltb (length v) 8 then ret (false, dst) else do
  addr_len ← index v 0
  if ltb addr_len 1 || ltb 31 addr_len || ltb (length v) (1 + addr_len + 6)
      then ret (false, dst)
      else do
        let base : ℕ = 1 + addr_len
        oid_len ← index v (base + 5)
        if not (base + 6 + oid_len == length v) then ret (false, dst) else do
          subtype ← index v 1
          address ← slice v 2 (1 + addr_len)
          interface_subtype ← index v base
          interface_number ← be32_at v (base + 1)
          oid ← slice v (base + 6) (length v)
          let m : ManagementAddress = record {
            subtype = subtype;
            address = address;
            interface_subtype = interface_subtype;
            interface_number = interface_number;
            oid = oid;
          }
          ret (true, record dst { management_addresses = dst.management_addresses ++ m ∷ [] })

abbrev with_details : LldpMessage → LldpDetails → LldpMessage
with_details m d = record m { details = d }

-- IEEE 802.1, `case 1`: port VLAN ID
decode_pvid : Bytes → LldpMessage → Go Valid
decode_pvid body dst = if not (length body == 2) then ret (false, dst) else do
  pvid ← be16 body
  ret (true, with_details dst (record dst.details { pvid = pvid; has_pvid = true }))

-- `case 3`: VLAN name
decode_vlan_name : Bytes → LldpMessage → Go Valid
decode_vlan_name body dst = if ltb (length body) 3 then ret (false, dst) else do
  n ← index body 2
  if not (3 + n == length body) then ret (false, dst) else do
    id ← be16_at body 0
    name ← slice body 3 (length body)
    let vlan : Vlan = record { id = id; name = name }
    ret (true, with_details dst (record dst.details { vlans = dst.details.vlans ++ vlan ∷ [] }))

-- `case 7`: link aggregation
decode_link_aggregation : Bytes → LldpMessage → Go Valid
decode_link_aggregation body dst = if not (length body == 5) then ret (false, dst) else do
  flags ← index body 0
  rest ← slice body 1 (length body)
  id ← be32 rest
  let aggregation : LinkAggregation = record {
    present = true;
    supported = flags % 2 == 1;
    enabled = flags / 2 % 2 == 1;
    id = id;
  }
  ret (true, with_details dst (record dst.details { link_aggregation = aggregation }))

-- IEEE 802.3, `case 1`: MAC/PHY configuration and status
decode_mac_phy : Bytes → LldpMessage → Go Valid
decode_mac_phy body dst = if not (length body == 5) then ret (false, dst) else do
  flags ← index body 0
  advertised ← be16_at body 1
  operational ← be16_at body 3
  let phy : MacPhy = record {
    present = true;
    autoneg_supported = flags % 2 == 1;
    autoneg_enabled = flags / 2 % 2 == 1;
    advertised_capabilities = advertised;
    operational_mau_type = operational;
  }
  ret (true, with_details dst (record dst.details { mac_phy = phy }))

-- `case 4`: maximum frame size
decode_frame_size : Bytes → LldpMessage → Go Valid
decode_frame_size body dst = if not (length body == 2) then ret (false, dst) else do
  size ← be16 body
  ret (
    true,
    with_details dst
        (record dst.details { maximum_frame_size = size; has_maximum_frame_size = true }),
  )

-- `decodeLLDPOrganizational`
pub decode_lldp_organizational : Bytes → LldpMessage → Go Valid
unfolding decode_pvid decode_vlan_name decode_link_aggregation decode_mac_phy decode_frame_size
decode_lldp_organizational v dst = if ltb (length v) 4 then ret (false, dst) else do
  body ← slice v 4 (length v)
  subtype ← index v 3
  o ← index v 0
  u ← index v 1
  i ← index v 2
  if o == 0x00 && u == 0x80 && i == 0xc2
      then if subtype == 1
        then decode_pvid body dst
        else if subtype == 3
        then decode_vlan_name body dst
        else if subtype == 7
        then decode_link_aggregation body dst
        else ret (true, dst)
      else if o == 0x00 && u == 0x12 && i == 0x0f
      then if subtype == 1
        then decode_mac_phy body dst
        else if subtype == 4
        then decode_frame_size body dst
        else ret (true, dst)
      else ret (true, dst)

-- `value[0]` and `value[1:]`, if the TLV has two bytes or more
identifier_of : ℕ → Bytes → Go (Option Identifier)
identifier_of size value = if ltb size 2 then ret none else do
  subtype ← index value 0
  rest ← slice value 1 (length value)
  ret (some (record { subtype = subtype; value = rest }))

set_chassis_id : LldpMessage → Option Identifier → Valid
set_chassis_id dst none = (false, dst)
set_chassis_id dst (some i) = (true, record dst { chassis_id = i })

set_port_id : LldpMessage → Option Identifier → Valid
set_port_id dst none = (false, dst)
set_port_id dst (some i) = (true, record dst { port_id = i })

decode_ttl : ℕ → Bytes → LldpMessage → Go Valid
decode_ttl size value dst =
    if not (size == 2)
    then ret (false, dst)
    else do ttl ← be16 value; ret (true, record dst { ttl_seconds = ttl })

decode_capabilities : ℕ → Bytes → LldpMessage → Go Valid
decode_capabilities size value dst = if not (size == 4) then ret (false, dst) else do
  system ← be16_at value 0
  rest ← slice value 2 (length value)
  enabled ← be16 rest
  ret (
    true,
    with_details dst
        (record dst.details { system_capabilities = system; enabled_capabilities = enabled }),
  )

-- `switch typ`
pub decode_tlv : ℕ → ℕ → Bytes → LldpMessage → Go Valid
unfolding identifier_of set_chassis_id set_port_id decode_ttl decode_capabilities
    decode_lldp_management decode_lldp_organizational
decode_tlv typ size value dst =
    if typ == lldp_chassis_id
    then (do i ← identifier_of size value; ret (set_chassis_id dst i))
    else if typ == lldp_port_id
    then (do i ← identifier_of size value; ret (set_port_id dst i))
    else if typ == lldp_ttl
    then decode_ttl size value dst
    else if typ == lldp_port_description
    then ret (true, with_details dst (record dst.details { port_description = value }))
    else if typ == lldp_system_name
    then ret (true, record dst { system_name = value })
    else if typ == lldp_system_description
    then ret (true, with_details dst (record dst.details { system_description = value }))
    else if typ == lldp_system_capabilities
    then decode_capabilities size value dst
    else if typ == lldp_management_address
    then decode_lldp_management value dst
    else if typ == lldp_organizational
    then decode_lldp_organizational value dst
    else ret (true, dst)

-- The variables of the loop of `DecodeLLDPDU`.
pub record Scan : Type 0 where
  pub off : ℕ
  pub mandatory : ℕ
  pub seen : List Bool
  pub dst : LldpMessage
  pub st : DecodeStatus

abbrev pub Next : Type 0
Next = Round Scan (Decoded LldpMessage)

-- A TLV that is neither the end nor a duplicate: behind the switch. The end of the TLV is `off`.
store_tlv : ℕ → ℕ → Scan → Valid → Go Next
store_tlv header_off typ s (false, dst) =
    let severity : DecodeSeverity =
      if leb lldp_chassis_id typ && leb typ lldp_ttl then fatal else partial in
    let st : DecodeStatus = add_issue s.st severity invalid_tlv_length header_off typ in
    if leb lldp_chassis_id typ && leb typ lldp_ttl
    then ret (done (dst, st))
    else ret (next (record s { dst = dst; st = st }))
store_tlv header_off typ s (true, dst) = do
  seen ← write s.seen typ true
  ret (next (record s { seen = seen; dst = dst }))

-- One TLV in its place, `value`, whose end is `off`.
scan_tlv : (header_off typ size : ℕ) → Bytes → Scan → Go Next
unfolding decode_tlv store_tlv is_lldp_singleton
scan_tlv header_off typ size value s =
    if typ == lldp_end
    then if not (size == 0) || not (s.mandatory == 3)
      then ret (done (s.dst, add_issue s.st fatal invalid_tlv_length header_off 0))
      else ret (done (s.dst, s.st))
    else do
      seen ← index s.seen typ
      if seen && is_lldp_singleton typ
          then ret (next (record s { st = add_issue s.st partial duplicate_tlv header_off typ }))
          else do v ← decode_tlv typ size value s.dst; store_tlv header_off typ s v

-- A round of `for off+2 <= len(pdu)`, and what stands behind the loop.
pub scan : Bytes → Scan → Go Next
unfolding scan_tlv
scan pdu s =
    if ltb (length pdu) (s.off + 2)
    then ret (done (s.dst, add_issue s.st fatal missing_end s.off 0))
    else do
      head ← be16_at pdu s.off
      let typ : ℕ = head / 512 % 256
      let size : ℕ = head % 512
      if ltb (length pdu) (s.off + 2 + size)
          then ret (done (s.dst, add_issue s.st fatal truncated_tlv s.off typ))
          else do
            value ← slice pdu (s.off + 2) (s.off + 2 + size)
            if ltb s.mandatory 3 && not (typ == s.mandatory + 1)
                then ret (done (s.dst, add_issue s.st fatal invalid_mandatory_order s.off typ))
                else scan_tlv s.off typ size value (record s {
                  off = s.off + 2 + size;
                  mandatory = if ltb s.mandatory 3 then s.mandatory + 1 else s.mandatory;
                })

abbrev pub start : LldpMessage → Scan
start dst = record { off = 0; mandatory = 0; seen = replicate 128 false; dst = dst; st = no_status }

-- `DecodeLLDPDU` behind the test for nil. Each round but the last takes two bytes or more.
pub decode_lldpdu_into : Bytes → LldpMessage → Go (Decoded LldpMessage)
unfolding scan
decode_lldpdu_into pdu dst =
    if ltb max_lldpdu_size (length pdu)
    then fail (Message.reset dst) too_large (length pdu) 0
    else loop (length pdu + 1) (scan pdu) (start (Message.reset dst))

-- `DecodeLLDPDU`
unfoldable pub decode_lldpdu : Bytes → Option LldpMessage → Go (Decoded (Option LldpMessage))
unfolding decode_lldpdu_into
decode_lldpdu pdu none = fail none nil_destination 0 0
decode_lldpdu pdu (some dst) = do (m, st) ← decode_lldpdu_into pdu dst; ret (some m, st)

-- `if dst != nil { dst.Reset() }`
reset_destination : Option LldpMessage → Option LldpMessage
reset_destination none = none
reset_destination (some dst) = some (Message.reset dst)

-- `if dst != nil { dst.SourceMAC = eth.Source; ... }`
stamp_capture : EthernetFrame → Option LldpMessage → Option LldpMessage
stamp_capture eth none = none
stamp_capture eth (some m) = some (record m {
  source_mac = eth.source;
  capture_vlan_count = eth.vlan_count;
  capture_vlans = eth.vlans;
})

-- `DecodeLLDPFrame`
unfoldable pub decode_lldp_frame : Bytes → Option LldpMessage → Go (Decoded (Option LldpMessage))
unfolding reset_destination stamp_capture
decode_lldp_frame frame dst = do
  (eth, st) ← decode_frame_into frame empty_frame
  if not (usable st)
      then ret (reset_destination dst, st)
      else if not (eth.ether_type == ether_type_lldp)
      then ret (reset_destination dst, add_issue st fatal wrong_protocol 12 eth.ether_type)
      else do (m, st') ← decode_lldpdu eth.payload dst; ret (stamp_capture eth m, st')
