-- ===== src/Capture/Builder.antt =====
-- capture_common.go: the program of classic BPF that selects the frames of the protocols, built with
-- labels for the places to jump to.
use omnidiscover.Prelude.{
  ℕ, zero, suc, ◌+◌, ◌-◌, ◌*◌, ◌%◌, ◌^◌, Bool, true, false, not, ◌&&◌, List, [], ◌∷◌, ◌++◌, Option,
  none, some, ◌==◌, if◌then◌else◌, length, set, bit_and, bit_or,
}
use omnidiscover.Protocol.{
  ProtocolSet, protocol_lldp, protocol_cdp, protocol_mndp, protocol_mdns, protocols_mndp,
  protocols_mdns, protocol_set, has,
}
use omnidiscover.Ethernet.{
  ether_type_ipv4, ether_type_vlan, ether_type_qinq, ether_type_ipv6, ether_type_lldp,
}
use omnidiscover.Mndp.{mndp_port}
use omnidiscover.Mdns.{mdns_port}

pub record FilterInsn : Type 0 where
  pub code : ℕ
  pub jt : ℕ
  pub jf : ℕ
  pub k : ℕ

abbrev pub bpf_ldw_abs : ℕ
bpf_ldw_abs = 0x20

abbrev pub bpf_ldh_abs : ℕ
bpf_ldh_abs = 0x28

abbrev pub bpf_ldb_abs : ℕ
bpf_ldb_abs = 0x30

abbrev pub bpf_ldh_ind : ℕ
bpf_ldh_ind = 0x48

abbrev pub bpf_ldxb_msh : ℕ
bpf_ldxb_msh = 0xb1

abbrev pub bpf_jeq_k : ℕ
bpf_jeq_k = 0x15

abbrev pub bpf_jge_k : ℕ
bpf_jge_k = 0x35

abbrev pub bpf_jset_k : ℕ
bpf_jset_k = 0x45

abbrev pub bpf_ret_k : ℕ
bpf_ret_k = 0x06

pub record FilterFixup : Type 0 where
  pub place : ℕ
  pub on_true : ℕ
  pub on_false : ℕ

-- A label that is not marked yet is -1.
pub record FilterBuilder : Type 0 where
  pub ins : List FilterInsn
  pub labels : List (Option ℕ)
  pub fixups : List FilterFixup

abbrev pub Build : Type 0 → Type 0
Build A = FilterBuilder → A × FilterBuilder

infixl 5 ◌>>=◌ ◌>>◌
abbrev pub ◌>>=◌ : {A B : Type 0} → Build A → (A → Build B) → Build B
◌>>=◌ m f b = let r = m b in f r.0 r.1

abbrev pub ◌>>◌ : {B : Type 0} → Build (Unit {0}) → Build B → Build B
◌>>◌ m k b = let r = m b in k r.1

abbrev pub done : Build (Unit {0})
done b = (tt, b)

-- `filterBuilder.label`
unfoldable pub label : Build ℕ
label b = (length b.labels, record b { labels = b.labels ++ none ∷ [] })

-- `filterBuilder.mark`
unfoldable pub mark : ℕ → Build (Unit {0})
mark l b = (tt, record b { labels = set b.labels l (some (length b.ins)) })

-- `filterBuilder.emit`
unfoldable pub emit : FilterInsn → Build (Unit {0})
emit i b = (tt, record b { ins = b.ins ++ i ∷ [] })

-- `filterInsn{code: code, k: k}`
abbrev pub insn : ℕ → ℕ → FilterInsn
insn code k = record { code = code; jt = 0; jf = 0; k = k }

-- `filterBuilder.jump`
unfoldable pub jump : (code k on_true on_false : ℕ) → Build (Unit {0})
unfolding emit
jump code k on_true on_false b = emit (insn code k) (record b {
  fixups = b.fixups ++ record { place = length b.ins; on_true = on_true; on_false = on_false } ∷ [];
})

-- One round of the loop of `tagGuard`
unfoldable pub tag_guard_from : ℕ → ℕ → ℕ → Build (Unit {0})
unfolding label mark emit jump
tag_guard_from zero tag reject = done
tag_guard_from (suc n) tag reject = do
  check_qinq ← label
  matched ← label
  emit (insn bpf_ldh_abs (12 + tag * 4))
  jump bpf_jeq_k ether_type_vlan matched check_qinq
  mark check_qinq
  jump bpf_jeq_k ether_type_qinq matched reject
  mark matched
  tag_guard_from n (tag + 1) reject

-- `filterBuilder.tagGuard`
unfoldable pub tag_guard : ℕ → ℕ → Build (Unit {0})
unfolding tag_guard_from
tag_guard depth reject = tag_guard_from depth 0 reject

-- `filterBuilder.emitSelectedPortChecks`
unfoldable pub emit_selected_port_checks : ProtocolSet → ℕ → ℕ → Build (Unit {0})
unfolding label mark jump has protocol_set
emit_selected_port_checks protocols accept reject =
    if has protocols protocol_mdns && has protocols protocol_mndp
    then (do
      check_mndp ← label
      jump bpf_jeq_k mdns_port accept check_mndp
      mark check_mndp
      jump bpf_jeq_k mndp_port accept reject)
    else if has protocols protocol_mdns
    then jump bpf_jeq_k mdns_port accept reject
    else jump bpf_jeq_k mndp_port accept reject

-- `filterBuilder.emitUDPPortChecks`
unfoldable pub emit_udp_port_checks : ℕ → ProtocolSet → ℕ → ℕ → Build (Unit {0})
unfolding label mark emit emit_selected_port_checks
emit_udp_port_checks offset protocols accept reject = do
  check_destination ← label
  emit (insn bpf_ldh_ind offset)
  emit_selected_port_checks protocols accept check_destination
  mark check_destination
  emit (insn bpf_ldh_ind (offset + 2))
  emit_selected_port_checks protocols accept reject

-- The loop of `emitIPv6ExtensionChecks`
unfoldable pub emit_header_checks : List ℕ → ℕ → Build (Unit {0})
unfolding label mark jump
emit_header_checks [] accept = done
emit_header_checks (header ∷ headers) accept = do
  next ← label
  jump bpf_jeq_k header accept next
  mark next
  emit_header_checks headers accept

-- `filterBuilder.emitIPv6ExtensionChecks`
unfoldable pub emit_ipv6_extension_checks : ℕ → ℕ → Build (Unit {0})
unfolding emit_header_checks jump
emit_ipv6_extension_checks accept reject = do
  emit_header_checks (0 ∷ 43 ∷ 44 ∷ 51 ∷ 60 ∷ []) accept
  jump bpf_jeq_k (2 ^ 32 - 1) accept reject

pub data FilterKind : Type 0 where
  filter_lldp filter_cdp filter_ipv4 filter_ipv6 : FilterKind

-- The `switch` of `emitProtocolPath`
unfoldable pub emit_kind :
    FilterKind
    → (type_offset payload_offset : ℕ) → ProtocolSet
    → (accept reject : ℕ) → Build (Unit {0})
unfolding label mark emit jump emit_udp_port_checks emit_ipv6_extension_checks
emit_kind filter_lldp type_offset payload_offset protocols accept reject = do
  emit (insn bpf_ldh_abs type_offset)
  jump bpf_jeq_k ether_type_lldp accept reject
emit_kind filter_cdp type_offset payload_offset protocols accept reject = do
  length_ok ← label
  emit (insn bpf_ldh_abs type_offset)
  jump bpf_jge_k 0x0600 reject length_ok
  mark length_ok
  second_word ← label
  emit (insn bpf_ldw_abs payload_offset)
  jump bpf_jeq_k 0xaaaa0300 second_word reject
  mark second_word
  emit (insn bpf_ldw_abs (payload_offset + 4))
  jump bpf_jeq_k 0x000c2000 accept reject
emit_kind filter_ipv4 type_offset payload_offset protocols accept reject = do
  ip_protocol ← label
  fragments ← label
  ports ← label
  emit (insn bpf_ldh_abs type_offset)
  jump bpf_jeq_k ether_type_ipv4 ip_protocol reject
  mark ip_protocol
  emit (insn bpf_ldb_abs (payload_offset + 9))
  jump bpf_jeq_k 17 fragments reject
  mark fragments
  emit (insn bpf_ldh_abs (payload_offset + 6))
  jump bpf_jset_k 0x3fff reject ports
  mark ports
  emit (insn bpf_ldxb_msh payload_offset)
  emit_udp_port_checks payload_offset protocols accept reject
emit_kind filter_ipv6 type_offset payload_offset protocols accept reject = do
  check_next ← label
  direct_udp ← label
  extension ← label
  emit (insn bpf_ldh_abs type_offset)
  jump bpf_jeq_k ether_type_ipv6 check_next reject
  mark check_next
  emit (insn bpf_ldb_abs (payload_offset + 6))
  jump bpf_jeq_k 17 direct_udp extension
  mark extension
  emit_ipv6_extension_checks accept reject
  mark direct_udp
  emit_udp_port_checks (payload_offset + 40) protocols accept reject

-- `filterBuilder.emitProtocolPath`
unfoldable pub emit_protocol_path : ℕ → FilterKind → ProtocolSet → ℕ → Build (Unit {0})
unfolding label mark emit tag_guard emit_kind
emit_protocol_path depth kind protocols snaplen = do
  reject ← label
  accept ← label
  tag_guard depth reject
  emit_kind kind (12 + depth * 4) (14 + depth * 4) protocols accept reject
  mark accept
  emit (insn bpf_ret_k (snaplen % 2 ^ 32))
  mark reject

abbrev when : Bool → Build (Unit {0}) → Build (Unit {0})
when true m = m
when false m = done

-- The rounds of the loop of `discoveryFilter`
unfoldable pub emit_depths : ℕ → ℕ → ProtocolSet → ℕ → Build (Unit {0})
unfolding emit_protocol_path has protocol_set
emit_depths zero depth protocols snaplen = done
emit_depths (suc n) depth protocols snaplen = do
  let udp = not (bit_and protocols (bit_or protocols_mndp protocols_mdns) == 0)
  when (has protocols protocol_lldp) (emit_protocol_path depth filter_lldp protocols snaplen)
  when (has protocols protocol_cdp) (emit_protocol_path depth filter_cdp protocols snaplen)
  when udp (emit_protocol_path depth filter_ipv4 protocols snaplen)
  when udp (emit_protocol_path depth filter_ipv6 protocols snaplen)
  emit_depths n (depth + 1) protocols snaplen
