-- ===== src/Engine.antt =====
-- engine.go: what the engine does with a captured view: `routeCapture`, `enqueue` and
-- `releasePacket`, on the queues and counters that they change. They are called by one goroutine for
-- each back end, and a channel takes in or hands out as a whole, so a run is one call behind another.
pub mod Route
use omnidiscover.Prelude.{
  ℕ, zero, suc, ◌+◌, ◌-◌, ◌%◌, ◌^◌, Bool, true, false, not, ◌&&◌, ◌||◌, List, [], ◌∷◌, ◌++◌, Option,
  none, some, ltb, leb, ◌==◌, if◌then◌else◌, length, Bytes, equal,
}
use omnidiscover.Go.{Go, ret, hang, ◌>>=◌, index, write}
use omnidiscover.Protocol.{
  Protocol, protocol_unknown, protocol_lldp, protocol_cdp, protocol_mndp, protocol_mdns,
  ProtocolSet, has, usable,
}
use omnidiscover.Net.{Mac, zero_mac, Addr, no_addr}
use omnidiscover.Model.{Time}
use omnidiscover.Ethernet.{
  EthernetFrame, empty_frame, decode_frame_into, ether_type_lldp, ether_type_ipv4, ether_type_ipv6,
}
use omnidiscover.Ethernet.Udp.{UdpPacket, empty_packet, decode_udp_into}
use omnidiscover.Cdp.{cisco_oui, cdp_pid}
use omnidiscover.Mndp.{mndp_port}
use omnidiscover.Mdns.{mdns_port}

-- `observationMeta`
pub record ObservationMeta : Type 0 where
  pub protocol : Protocol
  pub interface_name : Bytes
  pub interface_index : ℕ
  pub timestamp : Time
  pub source_mac : Mac
  pub source_ip : Addr
  pub vlans : List ℕ
  pub vlan_count : ℕ

-- `packetSlot`, whose array has `MaxFrameSize` bytes
pub record PacketSlot : Type 0 where
  pub data_bytes : Bytes
  pub meta : ObservationMeta

pub record CaptureView : Type 0 where
  pub data_bytes : Bytes
  pub protocol : Protocol
  pub interface_name : Bytes
  pub interface_index : ℕ
  pub timestamp : Time
  pub source_ip : Addr

-- The engine's limits, its channels and its counters. A free slot is as good as another, so the
-- channel of those is their number. A queue is a channel that holds `protocol_queue` slots; that of a
-- protocol that is not enabled is nil, and takes in nothing.
pub record Engine : Type 0 where
  pub protocols : ProtocolSet
  pub max_frame_size : ℕ
  pub protocol_queue : ℕ
  pub slots : ℕ
  pub free_packets : ℕ
  pub queues : List (List PacketSlot)
  pub captured : ℕ
  pub routed : List ℕ
  pub dropped : List ℕ

-- `Add(1)` on a counter of 64 bits
abbrev pub count : ℕ → ℕ
count n = (n + 1) % 2 ^ 64

abbrev pub count_at : List ℕ → Protocol → Go (List ℕ)
count_at counters p = do n ← index counters p; write counters p (count n)

unfoldable pub drop_packet : Engine → Protocol → Go Engine
drop_packet e p = do dropped ← count_at e.dropped p; ret (record e { dropped = dropped })

-- `releasePacket`, which waits if the channel is full
unfoldable pub release_packet : Engine → Go Engine
release_packet e =
    if leb e.slots e.free_packets
    then hang
    else ret (record e { free_packets = e.free_packets + 1 })

-- The second `select` of `enqueue`
unfoldable pub send_packet : Engine → Protocol → PacketSlot → Go Engine
send_packet e p slot = do
  queue ← index e.queues p
  (if has e.protocols p && ltb (length queue) e.protocol_queue
      then (do
        queues ← write e.queues p (queue ++ slot ∷ [])
        routed ← count_at e.routed p
        ret (record e { queues = queues; routed = routed }))
      else (do e' ← drop_packet e p; release_packet e'))

-- `enqueue`
unfoldable pub enqueue : Engine → Protocol → Bytes → ObservationMeta → Go Engine
enqueue e p payload meta =
    if ltb e.max_frame_size (length payload)
    then drop_packet e p
    else if e.free_packets == 0
    then drop_packet e p
    else send_packet (record e { free_packets = e.free_packets - 1 }) p
        (record { data_bytes = payload; meta = record meta { protocol = p } })

abbrev pub view_meta : CaptureView → Time → ObservationMeta
view_meta view now = record {
  protocol = protocol_unknown;
  interface_name = view.interface_name;
  interface_index = view.interface_index;
  timestamp = if view.timestamp == 0 then now else view.timestamp;
  source_mac = zero_mac;
  source_ip = no_addr;
  vlans = 0 ∷ 0 ∷ 0 ∷ [];
  vlan_count = 0;
}

-- The end of `routeCapture`, for a UDP packet
unfoldable pub route_udp : Engine → UdpPacket → ObservationMeta → Go Engine
route_udp e udp meta =
    if (udp.source_port == mdns_port || udp.destination_port == mdns_port)
      && has e.protocols protocol_mdns
    then enqueue e protocol_mdns udp.payload (record meta { protocol = protocol_mdns })
    else if (udp.source_port == mndp_port || udp.destination_port == mndp_port)
        && has e.protocols protocol_mndp
    then enqueue e protocol_mndp udp.payload (record meta { protocol = protocol_mndp })
    else ret e

-- The part of `routeCapture` for a frame
unfoldable pub route_frame : Engine → EthernetFrame → ObservationMeta → Go Engine
route_frame e frame meta =
    if frame.ether_type == ether_type_lldp && has e.protocols protocol_lldp
    then enqueue e protocol_lldp frame.payload (record meta { protocol = protocol_lldp })
    else if frame.llc.snap
        && (equal frame.llc.oui cisco_oui
            && (frame.llc.pid == cdp_pid && has e.protocols protocol_cdp))
    then enqueue e protocol_cdp frame.payload (record meta { protocol = protocol_cdp })
    else if not (frame.ether_type == ether_type_ipv4) && not (frame.ether_type == ether_type_ipv6)
    then ret e
    else (do
      (udp, ust) ← decode_udp_into frame empty_packet
      if not (usable ust)
          then ret e
          else route_udp e udp (record meta { source_ip = udp.source_ip }))

-- `routeCapture`, at the time `now`
unfoldable pub route_capture : Engine → CaptureView → (now : Time) → Go Engine
route_capture e view now =
    let e' = record e { captured = count e.captured } in
    let meta = view_meta view now in
    if not (view.protocol == protocol_unknown)
    then (if has e.protocols view.protocol
        then enqueue e' view.protocol view.data_bytes
            (record meta { protocol = view.protocol; source_ip = view.source_ip })
        else ret e')
    else (do
      (frame, st) ← decode_frame_into view.data_bytes empty_frame
      if not (usable st)
          then ret e'
          else route_frame e' frame (record meta {
            source_mac = frame.source;
            vlans = frame.vlans;
            vlan_count = frame.vlan_count;
          }))
