-- ===== src/Examples/Engine.antt =====
-- Runs of `enqueue` and `routeCapture` on a small engine, and of the theorem at it.
use omnidiscover.Prelude.{◌≡◌, refl, [], ◌∷◌, arith}
use omnidiscover.Go.{ret, index, write}
use omnidiscover.Go.Ensures.{Ensures}
use omnidiscover.Protocol.{protocol_set, has}
use omnidiscover.Net.{no_addr}
use omnidiscover.Engine.{
  PacketSlot, CaptureView, Engine, view_meta, drop_packet, release_packet, send_packet, enqueue,
  route_capture,
}
use omnidiscover.Engine.Route.{IsEngine, Routed, route_capture-Routed}

-- An engine for LLDP and MNDP, with two slots
abbrev idle : Engine
idle = record {
  protocols = 5;
  max_frame_size = 9;
  protocol_queue = 1;
  slots = 2;
  free_packets = 2;
  queues = [] ∷ [] ∷ [] ∷ [] ∷ [] ∷ [];
  captured = 0;
  routed = 0 ∷ 0 ∷ 0 ∷ 0 ∷ 0 ∷ [];
  dropped = 0 ∷ 0 ∷ 0 ∷ 0 ∷ 0 ∷ [];
}

-- Four bytes on the port of MNDP
abbrev datagram : CaptureView
datagram = record {
  data_bytes = 0 ∷ 0 ∷ 0 ∷ 1 ∷ [];
  protocol = 3;
  interface_name = b'e' ∷ [];
  interface_index = 2;
  timestamp = 0;
  source_ip = no_addr;
}

idle-IsEngine : IsEngine idle
idle-IsEngine = record { queues = refl; routed = refl; dropped = refl; slots = omega arith }

abbrev packet : PacketSlot
packet = record {
  data_bytes = datagram.data_bytes;
  meta = record (view_meta datagram 7) { protocol = 3 };
}

takes_one :
    enqueue idle 3 datagram.data_bytes (view_meta datagram 7)
    ≡ ret (record idle {
      free_packets = 1;
      queues = [] ∷ [] ∷ [] ∷ (packet ∷ []) ∷ [] ∷ [];
      routed = 0 ∷ 0 ∷ 0 ∷ 1 ∷ 0 ∷ [];
    })
unfolding enqueue send_packet index write has protocol_set
takes_one = refl

-- A queue that is full gives the slot back.
refuses_another :
    enqueue
      (record idle { queues = [] ∷ [] ∷ [] ∷ (packet ∷ []) ∷ [] ∷ []; free_packets = 1 })
      3
      datagram.data_bytes
      (view_meta datagram 7)
    ≡ ret (record idle {
      free_packets = 1;
      queues = [] ∷ [] ∷ [] ∷ (packet ∷ []) ∷ [] ∷ [];
      dropped = 0 ∷ 0 ∷ 0 ∷ 1 ∷ 0 ∷ [];
    })
unfolding enqueue send_packet drop_packet release_packet index write has protocol_set
refuses_another = refl

route_capture-Routed_example : Ensures (Routed idle 4) (route_capture idle datagram 7)
route_capture-Routed_example =
    route_capture-Routed idle datagram 7 idle-IsEngine
      (omega arith, (omega arith, (omega arith, (omega arith, tt))))
