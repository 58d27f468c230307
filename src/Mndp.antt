-- ===== src/Mndp.antt =====
-- mndp.go: MikroTik Neighbor Discovery packets.
pub mod Total
use omnidiscover.Prelude.{
  ℕ, ◌+◌, Bool, true, false, not, ◌&&◌, ◌||◌, List, [], Option, none, some, ltb, leb, ◌==◌,
  if◌then◌else◌, length, Bytes, replicate,
}
use omnidiscover.Go.{
  Go, ret, ◌>>=◌, index, slice, write, be16, be16_at, le32, Round, next, done, loop,
}
use omnidiscover.Protocol.{
  partial, fatal, DecodeStatus, no_status, add_issue, nil_destination, too_short, too_large,
  truncated_tlv, invalid_tlv_length, duplicate_tlv,
}
use omnidiscover.Net.{Mac, zero_mac, is_unicast, Addr, no_addr, ip4, ip6, append_unique_addr}
use omnidiscover.Ethernet.{Decoded, fail}

abbrev pub mndp_port : ℕ
mndp_port = 5678

abbrev pub max_mndp_packet_size : ℕ
max_mndp_packet_size = 1500

abbrev pub tag_mac : ℕ
tag_mac = 1

abbrev pub tag_identity : ℕ
tag_identity = 5

abbrev pub tag_version : ℕ
tag_version = 7

abbrev pub tag_platform : ℕ
tag_platform = 8

abbrev pub tag_uptime : ℕ
tag_uptime = 10

abbrev pub tag_software_id : ℕ
tag_software_id = 11

abbrev pub tag_board : ℕ
tag_board = 12

abbrev pub tag_ipv6 : ℕ
tag_ipv6 = 15

abbrev pub tag_interface : ℕ
tag_interface = 16

abbrev pub tag_ipv4 : ℕ
tag_ipv4 = 17

pub record MndpDetails : Type 0 where
  pub type_tag : ℕ
  pub sequence : ℕ
  pub identity : Bytes
  pub version : Bytes
  pub platform : Bytes
  pub software_id : Bytes
  pub board : Bytes
  pub interface_name : Bytes
  pub uptime_seconds : ℕ
  pub has_uptime : Bool

pub record MndpMessage : Type 0 where
  pub source_ip : Addr
  pub mac : Mac
  pub has_mac : Bool
  pub addresses : List Addr
  pub is_refresh : Bool
  pub details : MndpDetails

-- `MNDPMessage.Reset`, statement by statement
unfoldable pub reset : MndpMessage → MndpMessage
reset m = record m {
  source_ip = no_addr;
  mac = zero_mac;
  has_mac = false;
  addresses = [];
  is_refresh = false;
  details = record m.details {
    type_tag = 0;
    sequence = 0;
    identity = [];
    version = [];
    platform = [];
    software_id = [];
    board = [];
    interface_name = [];
    uptime_seconds = 0;
    has_uptime = false;
  };
}

-- Whether a TLV is valid, and the message behind it.
abbrev pub Valid : Type 0
Valid = Bool × MndpMessage

abbrev with_details : MndpMessage → MndpDetails → MndpMessage
with_details m d = record m { details = d }

store_uptime : Bytes → MndpMessage → Go Valid
store_uptime v dst = if not (length v == 4) then ret (false, dst) else do
  seconds ← le32 v
  ret (true, with_details dst (record dst.details { uptime_seconds = seconds; has_uptime = true }))

store_mac : Bytes → MndpMessage → Valid
store_mac v dst =
    if not (length v == 6)
    then (false, dst)
    else (true, record dst { mac = v; has_mac = is_unicast v })

store_ipv4 : Bytes → MndpMessage → Valid
store_ipv4 v dst =
    if not (length v == 4)
    then (false, dst)
    else (true, record dst { addresses = append_unique_addr dst.addresses (ip4 v) })

store_ipv6 : Bytes → MndpMessage → Valid
store_ipv6 v dst =
    if not (length v == 16)
    then (false, dst)
    else (true, record dst { addresses = append_unique_addr dst.addresses (ip6 v []) })

-- `switch tag`
pub store_tlv : ℕ → Bytes → MndpMessage → Go Valid
unfolding store_uptime store_mac store_ipv4 store_ipv6
store_tlv tag v dst =
    if tag == tag_mac
    then ret (store_mac v dst)
    else if tag == tag_identity
    then ret (true, with_details dst (record dst.details { identity = v }))
    else if tag == tag_version
    then ret (true, with_details dst (record dst.details { version = v }))
    else if tag == tag_platform
    then ret (true, with_details dst (record dst.details { platform = v }))
    else if tag == tag_uptime
    then store_uptime v dst
    else if tag == tag_software_id
    then ret (true, with_details dst (record dst.details { software_id = v }))
    else if tag == tag_board
    then ret (true, with_details dst (record dst.details { board = v }))
    else if tag == tag_interface
    then ret (true, with_details dst (record dst.details { interface_name = v }))
    else if tag == tag_ipv4
    then ret (store_ipv4 v dst)
    else if tag == tag_ipv6
    then ret (store_ipv6 v dst)
    else ret (true, dst)

-- The variables of the loop of `DecodeMNDP`.
pub record Scan : Type 0 where
  pub off : ℕ
  pub seen : List Bool
  pub dst : MndpMessage
  pub st : DecodeStatus

abbrev pub Next : Type 0
Next = Round Scan (Decoded MndpMessage)

-- Behind the switch; `size` is the length of the value.
mark_tlv : (tag size : ℕ) → Scan → Valid → Go Next
mark_tlv tag size s (false, dst) = ret (
    next (record s {
      off = s.off + (4 + size);
      dst = dst;
      st = add_issue s.st partial invalid_tlv_length s.off tag;
    }))
mark_tlv tag size s (true, dst) =
    if ltb tag (length s.seen)
    then (do
      seen ← write s.seen tag true
      ret (next (record s { off = s.off + (4 + size); seen = seen; dst = dst })))
    else ret (next (record s { off = s.off + (4 + size); dst = dst }))

-- `tag < uint16(len(seen)) && seen[tag] && tag != mndpTagIPv4 && tag != mndpTagIPv6`
is_duplicate : ℕ → List Bool → Go Bool
is_duplicate tag seen =
    if ltb tag (length seen)
    then (do x ← index seen tag; ret (x && (not (tag == tag_ipv4) && not (tag == tag_ipv6))))
    else ret false

-- A round of `for off := 4; off < len(packet);`
pub scan : Bytes → Scan → Go Next
unfolding store_tlv mark_tlv is_duplicate
scan packet s =
    if leb (length packet) s.off
    then ret (done (s.dst, s.st))
    else if ltb (length packet) (s.off + 4)
    then ret (done (s.dst, add_issue s.st fatal truncated_tlv s.off 0))
    else do
      tag ← be16_at packet s.off
      size ← be16_at packet (s.off + 2)
      if ltb (length packet) (s.off + 4 + size)
          then ret (done (s.dst, add_issue s.st fatal invalid_tlv_length s.off tag))
          else do
            v ← slice packet (s.off + 4) (s.off + 4 + size)
            duplicate ← is_duplicate tag s.seen
            if duplicate
                then ret (
                    next (record s {
                      off = s.off + (4 + size);
                      st = add_issue s.st partial duplicate_tlv s.off tag;
                    }))
                else do r ← store_tlv tag v s.dst; mark_tlv tag size s r

-- The loop's variables behind the header.
start : MndpMessage → (type_tag sequence : ℕ) → Scan
start dst type_tag sequence = record {
  off = 4;
  seen = replicate 18 false;
  dst = record (reset dst) {
    is_refresh = type_tag == 0 && sequence == 0;
    details = record (reset dst).details { type_tag = type_tag; sequence = sequence };
  };
  st = no_status;
}

-- `DecodeMNDP` behind the test for nil. Each round but the last takes four bytes or more.
pub decode_mndp_into : Bytes → MndpMessage → Go (Decoded MndpMessage)
unfolding scan start
decode_mndp_into packet dst =
    if ltb (length packet) 4
    then fail (reset dst) too_short (length packet) 0
    else if ltb max_mndp_packet_size (length packet)
    then fail (reset dst) too_large (length packet) 0
    else do
      type_tag ← be16_at packet 0
      sequence ← be16_at packet 2
      loop (length packet + 1) (scan packet) (start dst type_tag sequence)

-- `DecodeMNDP`
unfoldable pub decode_mndp : Bytes → Option MndpMessage → Go (Decoded (Option MndpMessage))
unfolding decode_mndp_into
decode_mndp packet none = fail none nil_destination 0 0
decode_mndp packet (some dst) = do (m, st) ← decode_mndp_into packet dst; ret (some m, st)
