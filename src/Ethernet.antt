-- ===== src/Ethernet.antt =====
-- ethernet.go: Ethernet II and IEEE 802.3 LLC/SNAP framing, and UDP over IPv4 and IPv6.
-- `x & 0x0fff` is `x % 4096` and `x >> 4` is `x / 16`. A destination is the value behind `dst`;
-- a nil `dst` is `none`.
pub mod Frame
pub mod Udp
use omnidiscover.Prelude.{
  ℕ, zero, suc, ◌+◌, ◌-◌, ◌*◌, ◌/◌, ◌%◌, Bool, true, false, not, ◌&&◌, ◌||◌, List, [], ◌∷◌, Option,
  none, some, ltb, leb, ◌==◌, if◌then◌else◌, length, Bytes, equal, replicate,
}
use omnidiscover.Go.{Go, ret, hang, ◌>>=◌, index, slice, write, be16, be16_at}
use omnidiscover.Protocol.{
  DecodeStatus, no_status, add_issue, fatal, DecodeIssue, nil_destination, too_short,
  too_many_vlan_tags,
}
use omnidiscover.Net.{Mac, zero_mac}

abbrev pub ether_type_ipv4 : ℕ
ether_type_ipv4 = 0x0800

abbrev pub ether_type_vlan : ℕ
ether_type_vlan = 0x8100

abbrev pub ether_type_qinq : ℕ
ether_type_qinq = 0x88a8

abbrev pub ether_type_ipv6 : ℕ
ether_type_ipv6 = 0x86dd

abbrev pub ether_type_lldp : ℕ
ether_type_lldp = 0x88cc

abbrev pub max_vlan_tags : ℕ
max_vlan_tags = 3

pub record LlcHeader : Type 0 where
  pub present : Bool
  pub dsap : ℕ
  pub ssap : ℕ
  pub control : ℕ
  pub snap : Bool
  pub oui : Bytes
  pub pid : ℕ

abbrev pub no_llc : LlcHeader
no_llc = record {
  present = false;
  dsap = 0;
  ssap = 0;
  control = 0;
  snap = false;
  oui = 0 ∷ 0 ∷ 0 ∷ [];
  pid = 0;
}

pub record EthernetFrame : Type 0 where
  pub destination : Mac
  pub source : Mac
  pub ether_type : ℕ
  pub vlans : List ℕ
  pub vlan_count : ℕ
  pub llc : LlcHeader
  pub payload : Bytes

-- `EthernetFrame{}`, which `Reset` stores and `var frame EthernetFrame` declares
abbrev pub empty_frame : EthernetFrame
empty_frame = record {
  destination = zero_mac;
  source = zero_mac;
  ether_type = 0;
  vlans = 0 ∷ 0 ∷ 0 ∷ [];
  vlan_count = 0;
  llc = no_llc;
  payload = [];
}

abbrev pub reset : EthernetFrame → EthernetFrame
reset f = empty_frame

-- What a decoder leaves in `*dst`, and the status that it returns.
abbrev pub Decoded : Type 0 → Type 0
Decoded M = M × DecodeStatus

-- `addIssue(&st, DecodeFatal, ...); return st` on a status with no issue yet
abbrev pub fail {ℓ} : {M : Type ℓ} → M → DecodeIssue → ℕ → ℕ → Go (M × DecodeStatus)
fail dst code off typ = ret (dst, add_issue no_status fatal code off typ)

-- The SNAP header, with `data[0:3]` stored already.
decode_snap : EthernetFrame → ℕ → Bytes → Go (Decoded EthernetFrame)
decode_snap dst off content = if ltb (length content) 8 then fail dst too_short (off + 3) 0 else do
  oui ← slice content 3 6
  pid ← be16_at content 6
  payload ← slice content 8 (length content)
  ret (
    record dst {
      llc = record dst.llc { snap = true; oui = oui; pid = pid };
      ether_type = pid;
      payload = payload;
    },
    no_status,
  )

-- `data := b[off:]`, cut to the length field, is an LLC header and more.
decode_llc : EthernetFrame → ℕ → Bytes → Go (Decoded EthernetFrame)
unfolding decode_snap
decode_llc dst off content = if ltb (length content) 3 then fail dst too_short off 0 else do
  d ← index content 0
  s ← index content 1
  c ← index content 2
  let dst' : EthernetFrame = record dst {
    llc = record no_llc { present = true; dsap = d; ssap = s; control = c };
  }
  payload ← slice content 3 (length content)
  if d == 0xaa && s == 0xaa && c == 0x03
      then decode_snap dst' off content
      else ret (record dst' { payload = payload }, no_status)

-- Behind the VLAN tags.
decode_ether_type : Bytes → EthernetFrame → ℕ → ℕ → Go (Decoded EthernetFrame)
unfolding decode_llc
decode_ether_type b dst et off =
    if leb 0x0600 et
    then (do
      payload ← slice b off (length b)
      ret (record dst { ether_type = et; payload = payload }, no_status))
    else do
      content ← slice b off (length b)
      cut ← if ltb et (length content) then slice content 0 et else ret content
      decode_llc dst off cut

-- `for et == EtherTypeVLAN || et == EtherTypeQinQ`: at most four rounds, since the fourth returns.
vlan_loop : ℕ → Bytes → EthernetFrame → ℕ → ℕ → Go (Decoded EthernetFrame)
unfolding decode_ether_type
vlan_loop zero b dst et off = hang
vlan_loop (suc k) b dst et off =
    let next = do
      tag ← be16_at b off
      vlans ← write dst.vlans dst.vlan_count (tag % 4096)
      et' ← be16_at b (off + 2)
      vlan_loop k b (record dst { vlans = vlans; vlan_count = dst.vlan_count + 1 }) et' (off + 4)
    in if et == ether_type_vlan || et == ether_type_qinq
      then if dst.vlan_count == max_vlan_tags
        then fail dst too_many_vlan_tags off et
        else if ltb (length b) (off + 4)
        then fail dst too_short off et
        else next
      else decode_ether_type b dst et off

-- `DecodeEthernetFrame` behind the test for nil
unfoldable pub decode_frame_into : Bytes → EthernetFrame → Go (Decoded EthernetFrame)
unfolding vlan_loop
decode_frame_into b dst = if ltb (length b) 14 then fail (reset dst) too_short (length b) 0 else do
  d ← slice b 0 6
  s ← slice b 6 12
  et ← be16_at b 12
  vlan_loop 5 b (record (reset dst) { destination = d; source = s }) et 14

-- `DecodeEthernetFrame`
unfoldable pub decode_ethernet_frame :
    Bytes → Option EthernetFrame → Go (Decoded (Option EthernetFrame))
unfolding decode_frame_into
decode_ethernet_frame b none = fail none nil_destination 0 0
decode_ethernet_frame b (some dst) = do (frame, st) ← decode_frame_into b dst; ret (some frame, st)
