-- ===== src/Protocol.antt =====
-- protocol.go: protocols, sets of protocols, and the status that every decoder returns.
pub mod Issues
use omnidiscover.Prelude.{
  ℕ, zero, suc, ◌+◌, ◌-◌, ◌*◌, ◌^◌, ◌%◌, Bool, true, false, not, ◌||◌, ltb, ◌==◌, if◌then◌else◌,
  bit_and, bit_or,
}

-- `Protocol` is a `uint8`.
abbrev pub Protocol : Type 0
Protocol = ℕ

abbrev pub protocol_unknown : Protocol
protocol_unknown = 0

abbrev pub protocol_lldp : Protocol
protocol_lldp = 1

abbrev pub protocol_cdp : Protocol
protocol_cdp = 2

abbrev pub protocol_mndp : Protocol
protocol_mndp = 3

abbrev pub protocol_mdns : Protocol
protocol_mdns = 4

-- `ProtocolSet` is a `uint8`, a bit for each protocol.
abbrev pub ProtocolSet : Type 0
ProtocolSet = ℕ

abbrev pub protocols_lldp : ProtocolSet
protocols_lldp = 1

abbrev pub protocols_cdp : ProtocolSet
protocols_cdp = 2

abbrev pub protocols_mndp : ProtocolSet
protocols_mndp = 4

abbrev pub protocols_mdns : ProtocolSet
protocols_mdns = 8

abbrev pub protocols_all : ProtocolSet
protocols_all = bit_or (bit_or (bit_or protocols_lldp protocols_cdp) protocols_mndp) protocols_mdns

-- `Protocol.Set`
unfoldable pub protocol_set : Protocol → ProtocolSet
protocol_set p = if ltb p protocol_lldp || ltb protocol_mdns p then 0 else 2 ^ (p - 1) % 256

-- `ProtocolSet.Has`
unfoldable pub has : ProtocolSet → Protocol → Bool
has s p = not (bit_and s (protocol_set p) == 0)

pub data DecodeSeverity : Type 0 where
  clean ignored partial fatal : DecodeSeverity

-- The number behind a severity, by which the code compares two.
abbrev pub severity_rank : DecodeSeverity → ℕ
severity_rank clean = 0
severity_rank ignored = 1
severity_rank partial = 2
severity_rank fatal = 3

pub data DecodeIssue : Type 0 where
  no_issue nil_destination too_short too_large wrong_protocol too_many_vlan_tags : DecodeIssue
  truncated_tlv invalid_tlv_length invalid_mandatory_order duplicate_tlv missing_end : DecodeIssue
  invalid_header invalid_checksum compression_loop too_many_labels fragmented : DecodeIssue
  unsupported not_response : DecodeIssue

-- `code == IssueNone`
abbrev pub is_no_issue : DecodeIssue → Bool
is_no_issue no_issue = true
is_no_issue _ = false

pub record DecodeStatus : Type 0 where
  pub severity : DecodeSeverity
  pub code : DecodeIssue
  pub offset : ℕ
  pub tlv_type : ℕ
  pub issue_count : ℕ

-- `var st DecodeStatus`
abbrev pub no_status : DecodeStatus
no_status = record { severity = clean; code = no_issue; offset = 0; tlv_type = 0; issue_count = 0 }

-- `DecodeStatus.Usable`
abbrev pub usable_severity : DecodeSeverity → Bool
usable_severity clean = true
usable_severity partial = true
usable_severity _ = false

unfoldable pub usable : DecodeStatus → Bool
usable s = usable_severity s.severity

count_issue : DecodeStatus → DecodeStatus
count_issue s =
    if not (s.issue_count == 65535) then record s { issue_count = s.issue_count + 1 } else s

-- `addIssue`, which updates `*s`
unfoldable pub add_issue : DecodeStatus → DecodeSeverity → DecodeIssue → ℕ → ℕ → DecodeStatus
unfolding count_issue
add_issue s severity code off typ =
    let s' = count_issue s in
    if ltb (severity_rank s'.severity) (severity_rank severity) || is_no_issue s'.code
    then record s' { severity = severity; code = code; offset = off; tlv_type = typ }
    else s'
