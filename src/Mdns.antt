-- ===== src/Mdns.antt =====
-- mdns.go: passive mDNS responses. `x & 0x8000 != 0` is `x / 0x8000 % 2 == 1`, and so for the
-- other masks. A record that turns out invalid is taken off the list again, so it is appended only
-- if it is valid.
pub mod Name
pub mod Total
use Name.{decode_dns_name, lower_dns_name, validate_txt}
use omnidiscover.Prelude.{
  ℕ, ◌+◌, ◌-◌, ◌/◌, ◌%◌, Bool, true, false, not, ◌&&◌, ◌||◌, List, [], ◌∷◌, ◌++◌, Option, none,
  some, ltb, leb, ◌==◌, if◌then◌else◌, length, Bytes,
}
use omnidiscover.Go.{
  Go, ret, ◌>>=◌, index, slice, be16, be16_at, be32, be32_at, Round, next, done, loop,
}
use omnidiscover.Protocol.{
  ignored, partial, fatal, DecodeStatus, no_status, add_issue, is_no_issue, nil_destination,
  too_short, too_large, truncated_tlv, invalid_tlv_length, unsupported, not_response,
}
use omnidiscover.Net.{Addr, no_addr, ip4, ip6}
use omnidiscover.Ethernet.{Decoded, fail}

abbrev pub mdns_port : ℕ
mdns_port = 5353

abbrev pub max_dns_records_per_message : ℕ
max_dns_records_per_message = 256

abbrev pub type_a : ℕ
type_a = 1

abbrev pub type_ptr : ℕ
type_ptr = 12

abbrev pub type_txt : ℕ
type_txt = 16

abbrev pub type_aaaa : ℕ
type_aaaa = 28

abbrev pub type_srv : ℕ
type_srv = 33

pub record DnsRecord : Type 0 where
  pub name : Bytes
  pub type : ℕ
  pub class : ℕ
  pub cache_flush : Bool
  pub ttl : ℕ
  pub target : Bytes
  pub address : Addr
  pub port : ℕ
  pub priority : ℕ
  pub weight : ℕ
  pub txt : Bytes

pub record MdnsMessage : Type 0 where
  pub id : ℕ
  pub flags : ℕ
  pub records : List DnsRecord

-- `MDNSMessage.Reset`
unfoldable pub reset : MdnsMessage → MdnsMessage
reset m = record m { id = 0; flags = 0; records = [] }

-- A record's data: the record that it completes, or nothing where it is invalid.
abbrev pub Rdata : Type 0
Rdata = Option DnsRecord

-- `targetNext == end`, with no issue, and the name as the target.
set_target : DnsRecord → ℕ → Name.Name → Rdata
set_target r end (target, after, issue) =
    if is_no_issue issue && after == end
    then some (record r { target = lower_dns_name target })
    else none

-- `case DNSRecordA`
decode_a : Bytes → (rdata size : ℕ) → DnsRecord → Go Rdata
decode_a packet rdata size r = if not (size == 4) then ret none else do
  address ← slice packet rdata (rdata + 4)
  ret (some (record r { address = ip4 address }))

-- `case DNSRecordAAAA`
decode_aaaa : Bytes → (rdata end size : ℕ) → DnsRecord → Go Rdata
decode_aaaa packet rdata end size r =
    if not (size == 16)
    then ret none
    else do address ← slice packet rdata end; ret (some (record r { address = ip6 address [] }))

-- `case DNSRecordPTR`
decode_ptr : Bytes → (rdata end : ℕ) → DnsRecord → Go Rdata
unfolding set_target
decode_ptr packet rdata end r = do
  target ← decode_dns_name packet rdata
  ret (set_target r end target)

-- `case DNSRecordSRV`
decode_srv : Bytes → (rdata end size : ℕ) → DnsRecord → Go Rdata
unfolding set_target
decode_srv packet rdata end size r = if ltb size 7 then ret none else do
  priority ← be16_at packet rdata
  weight ← be16_at packet (rdata + 2)
  port ← be16_at packet (rdata + 4)
  target ← decode_dns_name packet (rdata + 6)
  ret (set_target (record r { priority = priority; weight = weight; port = port }) end target)

-- `case DNSRecordTXT`
decode_txt : Bytes → (rdata end : ℕ) → DnsRecord → Go Rdata
decode_txt packet rdata end r = do
  txt ← slice packet rdata end
  valid ← validate_txt txt
  ret (if valid then some (record r { txt = txt }) else none)

-- The second `switch typ`; the first has let only these five types through.
pub decode_rdata : Bytes → (rdata end size : ℕ) → DnsRecord → Go Rdata
unfolding decode_a decode_aaaa decode_ptr decode_srv decode_txt
decode_rdata packet rdata end size r =
    if r.type == type_a
    then decode_a packet rdata size r
    else if r.type == type_aaaa
    then decode_aaaa packet rdata end size r
    else if r.type == type_ptr
    then decode_ptr packet rdata end r
    else if r.type == type_srv
    then decode_srv packet rdata end size r
    else decode_txt packet rdata end r

-- The variables of the loops of `DecodeMDNS`.
pub record Scan : Type 0 where
  pub i : ℕ
  pub off : ℕ
  pub dst : MdnsMessage
  pub st : DecodeStatus

-- Behind the data of a record.
store_record : (rdata typ end : ℕ) → Scan → Rdata → Scan
store_record rdata typ end s (some r) = record s {
  i = s.i + 1;
  off = end;
  dst = record s.dst { records = s.dst.records ++ r ∷ [] };
}
store_record rdata typ end s none = record s {
  i = s.i + 1;
  off = end;
  st = add_issue s.st partial invalid_tlv_length rdata typ;
}

-- The types whose data is decoded.
unfoldable pub is_known_type : ℕ → Bool
is_known_type typ =
    typ == type_a || typ == type_aaaa || typ == type_ptr || typ == type_srv || typ == type_txt

-- A record's header behind its name, from `after` on.
scan_header : Bytes → Bytes → ℕ → Scan → Go (Round Scan (Decoded MdnsMessage))
unfolding store_record is_known_type decode_rdata
scan_header packet name after s =
    if ltb (length packet) (after + 10)
    then ret (done (s.dst, add_issue s.st fatal too_short after 0))
    else do
      typ ← be16_at packet after
      class ← be16_at packet (after + 2)
      ttl ← be32_at packet (after + 4)
      size ← be16_at packet (after + 8)
      let rdata : ℕ = after + 10
      let end : ℕ = rdata + size
      if ltb (length packet) end
          then ret (done (s.dst, add_issue s.st fatal truncated_tlv rdata typ))
          else if not (is_known_type typ)
          then ret (next (record s { i = s.i + 1; off = end }))
          else do
            r ← decode_rdata packet rdata end size (record {
              name = lower_dns_name name;
              type = typ;
              class = class % 0x8000;
              cache_flush = class / 0x8000 % 2 == 1;
              ttl = ttl;
              target = [];
              address = no_addr;
              port = 0;
              priority = 0;
              weight = 0;
              txt = [];
            })
            ret (next (store_record rdata typ end s r))

after_name : Bytes → Scan → Name.Name → Go (Round Scan (Decoded MdnsMessage))
unfolding scan_header
after_name packet s (name, after, issue) =
    if not (is_no_issue issue)
    then ret (done (s.dst, add_issue s.st fatal issue s.off 0))
    else scan_header packet name after s

-- A round of `for i := 0; i < totalRecords; i++`, and the return behind it.
pub scan_record : Bytes → ℕ → Scan → Go (Round Scan (Decoded MdnsMessage))
unfolding after_name
scan_record packet total s =
    if leb total s.i
    then ret (done (s.dst, s.st))
    else do name ← decode_dns_name packet s.off; after_name packet s name

-- The questions end at a status, or leave the offset of the first record.
after_question : Bytes → Scan → Name.Name → Go (Round Scan (Scan × Bool))
after_question packet s (name, after, issue) =
    if not (is_no_issue issue)
    then ret (done (record s { st = add_issue s.st fatal issue s.off 0 }, false))
    else if ltb (length packet) (after + 4)
    then ret (done (record s { st = add_issue s.st fatal too_short after 0 }, false))
    else ret (next (record s { i = s.i + 1; off = after + 4 }))

-- A round of `for i := 0; i < qd; i++`
scan_question : Bytes → ℕ → Scan → Go (Round Scan (Scan × Bool))
unfolding after_question
scan_question packet count s =
    if leb count s.i
    then ret (done (s, true))
    else do name ← decode_dns_name packet s.off; after_question packet s name

scan_records : Bytes → ℕ → Scan × Bool → Go (Decoded MdnsMessage)
unfolding scan_record
scan_records packet total (s, false) = ret (s.dst, s.st)
scan_records packet total (s, true) =
    loop (total + 1) (scan_record packet total) (record s { i = 0 })

-- The two loops behind the tests of the header.
scan_message : Bytes → (questions total : ℕ) → MdnsMessage → Go (Decoded MdnsMessage)
unfolding scan_question scan_records
scan_message packet questions total dst = do
  asked ←
      loop (questions + 1) (scan_question packet questions)
        (record { i = 0; off = 12; dst = dst; st = no_status })
  scan_records packet total asked

-- `DecodeMDNS` behind the test for nil
pub decode_mdns_into : Bytes → MdnsMessage → Go (Decoded MdnsMessage)
unfolding scan_message
decode_mdns_into packet dst =
    if ltb (length packet) 12 then fail (reset dst) too_short (length packet) 0 else do
      id ← be16_at packet 0
      flags ← be16_at packet 2
      let dst' : MdnsMessage = record (reset dst) { id = id; flags = flags }
      if flags / 0x8000 % 2 == 0
          then ret (dst', add_issue no_status ignored not_response 2 flags)
          else if not (flags / 0x800 % 16 == 0) || not (flags % 16 == 0)
          then ret (dst', add_issue no_status ignored unsupported 2 flags)
          else do
            questions ← be16_at packet 4
            answers ← be16_at packet 6
            authorities ← be16_at packet 8
            additional ← be16_at packet 10
            let total : ℕ = answers + authorities + additional
            if ltb max_dns_records_per_message questions || ltb max_dns_records_per_message total
                then fail dst' too_large 4 (total % 65536)
                else scan_message packet questions total dst'

-- `DecodeMDNS`
unfoldable pub decode_mdns : Bytes → Option MdnsMessage → Go (Decoded (Option MdnsMessage))
unfolding decode_mdns_into
decode_mdns packet none = fail none nil_destination 0 0
decode_mdns packet (some dst) = do (m, st) ← decode_mdns_into packet dst; ret (some m, st)
