-- ===== src/Engine/Route.antt =====
-- What `routeCapture` does to the engine, for any view.
use omnidiscover.Prelude.{
  ℕ, zero, suc, ◌+◌, ◌-◌, ◌≤◌, ◌<◌, ◌≡◌, refl, ◌∙◌, Bool, true, false, not, ◌&&◌, ◌||◌, List, [],
  ◌∷◌, ◌++◌, leb, ◌==◌, split_if, split_lt, split_eq, length, set, length-set, All, IsByte, Bytes,
  equal, bit_and, arith,
}
use omnidiscover.Prelude.Digits.{bit_and-le_right}
use omnidiscover.Go.{ret, index}
use omnidiscover.Go.Ensures.{Ensures, ensures, Ensures-bind, Ensures-mono, index-ret, write-set}
use omnidiscover.Protocol.{
  Protocol, protocol_unknown, protocol_lldp, protocol_cdp, protocol_mndp, protocol_mdns,
  protocol_set, has, usable,
}
use omnidiscover.Ethernet.{
  EthernetFrame, empty_frame, ether_type_lldp, ether_type_ipv4, ether_type_ipv6,
}
use omnidiscover.Cdp.{cisco_oui, cdp_pid}
use omnidiscover.Mndp.{mndp_port}
use omnidiscover.Mdns.{mdns_port}
use omnidiscover.Ethernet.Frame.{decode_frame_into-GoodFrame}
use omnidiscover.Ethernet.Udp.{UdpPacket, empty_packet}
use omnidiscover.Ethernet.Udp.Total.{decode_udp_into-Good}
use omnidiscover.Model.{Time}
use omnidiscover.Engine.{
  ObservationMeta, PacketSlot, CaptureView, Engine, count, drop_packet, release_packet, send_packet,
  enqueue, route_udp, route_frame, route_capture,
}

abbrev pub total : List (List PacketSlot) → ℕ
total [] = 0
total (q ∷ qs) = length q + total qs

-- A queue and two counters for each protocol, and no more slots than there are.
pub record IsEngine (e : Engine) : Type 0 where
  pub queues : length e.queues ≡ 5
  pub routed : length e.routed ≡ 5
  pub dropped : length e.dropped ≡ 5
  pub slots : e.free_packets + total e.queues ≤ e.slots

-- What a call leaves: a packet is counted as dropped, or is last in the queue of its protocol.
pub data Outcome (e : Engine) (n : ℕ) : Engine → Type 0 where
  unmoved : Outcome e n e
  lost :
      (p : Protocol) (d : ℕ)
      → has e.protocols p ≡ true
      → index e.dropped p ≡ ret d
      → Outcome e n (record e { dropped = set e.dropped p (count d) })
  queued :
      (p : Protocol) (slot : PacketSlot) (q : List PacketSlot) (r : ℕ)
      → has e.protocols p ≡ true
      → slot.meta.protocol ≡ p
      → length slot.data_bytes ≤ e.max_frame_size
      → length slot.data_bytes ≤ n
      → 0 < e.free_packets
      → index e.queues p ≡ ret q
      → length q < e.protocol_queue
      → index e.routed p ≡ ret r
      → Outcome e n (record e {
        free_packets = e.free_packets - 1;
        queues = set e.queues p (q ++ slot ∷ []);
        routed = set e.routed p (count r);
      })

has-lt : (s : ℕ) (p : Protocol) → has s p ≡ true → p < 5
unfolding has protocol_set
has-lt s p h =
    split_lt 4 p
      (λ e _.
        let without : protocol_set p ≡ 0 = ground arith in
        let nothing : bit_and s 0 ≡ 0 = omega (arith, bit_and-le_right s 0) in
        let bad = rw (without, nothing) at h in cc)
      λ e small. omega (arith, small)

module _ (e : Engine) (n : ℕ) (v : IsEngine e) (p : Protocol)
    (known : has e.protocols p ≡ true) where
  drop_packet-Outcome : Ensures (Outcome e n) (drop_packet e p)
  unfolding drop_packet
  drop_packet-Outcome =
      let small = has-lt e.protocols p known in
      let (d, found) = index-ret e.dropped p (omega (arith, small, v.dropped)) in
      rw (found, write-set e.dropped p (count d) (omega (arith, small, v.dropped)))
        (ensures (lost p d known found))

  enqueue-Outcome :
      (payload : Bytes) (meta : ObservationMeta)
      → length payload ≤ n
      → Ensures (Outcome e n) (enqueue e p payload meta)
  unfolding enqueue send_packet release_packet drop_packet
  enqueue-Outcome payload meta h =
      let small = has-lt e.protocols p known in
      split_lt e.max_frame_size (length payload) (λ t _. rw t drop_packet-Outcome)
        λ t fits.
          split_eq e.free_packets 0 (λ t' _. rw (t, t') drop_packet-Outcome)
            λ t' some_free.
              let (q, waits) = index-ret e.queues p (omega (arith, small, v.queues)) in
              let (r, counted) = index-ret e.routed p (omega (arith, small, v.routed)) in
              let (d, lost_before) = index-ret e.dropped p (omega (arith, small, v.dropped)) in
              let slot : PacketSlot = record {
                data_bytes = payload;
                meta = record meta { protocol = p };
              } in
              let free : e.free_packets - 1 + 1 ≡ e.free_packets = omega (arith, some_free) in
              let freeable : leb e.slots (e.free_packets - 1) ≡ false =
                ground (arith, v.slots, some_free) in
              rw (t, t', waits, known)
                (split_lt (length q) e.protocol_queue
                  (λ t'' room.
                    rw
                      (
                        t'',
                        write-set e.queues p (q ++ slot ∷ []) (omega (arith, small, v.queues)),
                        counted,
                        write-set e.routed p (count r) (omega (arith, small, v.routed)),
                      )
                      (ensures (
                        queued p slot q r known refl fits h (omega (arith, some_free)) waits room
                          counted)))
                  λ t'' _.
                    rw
                      (
                        t'',
                        lost_before,
                        write-set e.dropped p (count d) (omega (arith, small, v.dropped)),
                        freeable,
                        free,
                      )
                      (ensures (lost p d known lost_before)))

&&-right : (a b : Bool) → (a && b) ≡ true → b ≡ true
&&-right a b h = ground arith

module _ (e : Engine) (n : ℕ) (v : IsEngine e) where
  route_udp-Outcome :
      (udp : UdpPacket) (meta : ObservationMeta)
      → length udp.payload ≤ n
      → Ensures (Outcome e n) (route_udp e udp meta)
  unfolding route_udp
  route_udp-Outcome udp meta h =
      split_if
        ((udp.source_port == mdns_port || udp.destination_port == mdns_port)
          && has e.protocols protocol_mdns)
        (λ t. rw t (enqueue-Outcome e n v protocol_mdns (&&-right _ _ t) udp.payload _ h))
        λ t.
          split_if
            ((udp.source_port == mndp_port || udp.destination_port == mndp_port)
              && has e.protocols protocol_mndp)
            (λ t'.
              rw (t, t') (enqueue-Outcome e n v protocol_mndp (&&-right _ _ t') udp.payload _ h))
            λ t'. rw (t, t') (ensures unmoved)

  route_frame-Outcome :
      (frame : EthernetFrame) (meta : ObservationMeta)
      → All IsByte frame.payload
      → length frame.payload ≤ n
      → Ensures (Outcome e n) (route_frame e frame meta)
  unfolding route_frame
  route_frame-Outcome frame meta a h =
      split_if (frame.ether_type == ether_type_lldp && has e.protocols protocol_lldp)
        (λ t. rw t (enqueue-Outcome e n v protocol_lldp (&&-right _ _ t) frame.payload _ h))
        λ t.
          split_if
            (frame.llc.snap
              && (equal frame.llc.oui cisco_oui
                  && (frame.llc.pid == cdp_pid && has e.protocols protocol_cdp)))
            (λ t'.
              let enabled : has e.protocols protocol_cdp ≡ true = ground arith in
              rw (t, t') (enqueue-Outcome e n v protocol_cdp enabled frame.payload _ h))
            λ t'.
              split_if
                (not (frame.ether_type == ether_type_ipv4)
                  && not (frame.ether_type == ether_type_ipv6))
                (λ t''. rw (t, t', t'') (ensures unmoved))
                λ t''.
                  rw (t, t', t'')
                    (Ensures-bind (decode_udp_into-Good frame empty_packet a) λ r g.
                      split_if (usable r.1)
                        (λ u. rw u (route_udp-Outcome r.0 _ (omega (arith, g.0.within, h))))
                        λ u. rw u (ensures unmoved))

-- Counting a view leaves the engine's queues and slots.
counted-IsEngine : (e : Engine) (c : ℕ) → IsEngine e → IsEngine (record e { captured = c })
counted-IsEngine e c v = record {
  queues = v.queues;
  routed = v.routed;
  dropped = v.dropped;
  slots = v.slots;
}

total-set :
    (qs : List (List PacketSlot)) (p : ℕ) (q q' : List PacketSlot)
    → index qs p ≡ ret q
    → total (set qs p q') + length q ≡ total qs + length q'
unfolding index
total-set [] p q q' h = cc
total-set (x ∷ qs) zero q q' h = let same : x ≡ q = cc in rw same (omega arith)
total-set (x ∷ qs) (suc p) q q' h = omega (arith, total-set qs p q q' h)

length-append_one {ℓ} : {A : Type ℓ} (xs : List A) (x : A) → length (xs ++ x ∷ []) ≡ length xs + 1
length-append_one [] x = refl
length-append_one (y ∷ xs) x = omega (arith, length-append_one xs x)

-- The slots that are free or wait in a queue
abbrev pub pool : Engine → ℕ
pool e = e.free_packets + total e.queues

Outcome-IsEngine :
    (e : Engine) (n : ℕ) (e' : Engine)
    → IsEngine e
    → Outcome e n e'
    → IsEngine e' × (pool e' ≡ pool e)
Outcome-IsEngine e n e' v unmoved = (v, refl)
Outcome-IsEngine e n e' v (lost p d known found) = (
  record {
    queues = v.queues;
    routed = v.routed;
    dropped = length-set e.dropped p (count d) ∙ v.dropped;
    slots = v.slots;
  },
  refl,
)
Outcome-IsEngine e n e' v (queued p slot q r known same fits within free waits room counted) =
    let more = total-set e.queues p q (q ++ slot ∷ []) waits in
    let one = length-append_one q slot in
    let kept : e.free_packets - 1 + total (set e.queues p (q ++ slot ∷ [])) ≡ pool e =
      omega (arith, more, one, free) in
    (
      record {
        queues = length-set e.queues p _ ∙ v.queues;
        routed = length-set e.routed p (count r) ∙ v.routed;
        dropped = v.dropped;
        slots = omega (arith, kept, v.slots);
      },
      kept,
    )

-- What a view does to an engine: it is counted, and then at most one packet is lost or queued; no slot
-- gets lost.
pub record Routed (e : Engine) (n : ℕ) (e' : Engine) : Type 0 where
  pub outcome : Outcome (record e { captured = count e.captured }) n e'
  pub valid : IsEngine e'
  pub kept : pool e' ≡ pool e

-- On an engine with a queue and counters for each protocol, whose slots are accounted for, and on any
-- view of bytes routeCapture returns, without a panic and without waiting for a channel. The view is
-- counted. Then nothing else happens, or a packet of an enabled protocol is counted as dropped, or it
-- takes a free slot, stands last in its protocol's queue, which was not full, and is counted as routed.
-- A packet has its protocol in its meta, and is no longer than the limit or the view. Free and queued
-- slots together stay as many.
pub route_capture-Routed :
    (e : Engine) (view : CaptureView) (now : Time)
    → IsEngine e
    → All IsByte view.data_bytes
    → Ensures (Routed e (length view.data_bytes)) (route_capture e view now)
unfolding route_capture
route_capture-Routed e view now v a =
    let n = length view.data_bytes in
    let e1 = record e { captured = count e.captured } in
    let v1 = counted-IsEngine e (count e.captured) v in
    Ensures-mono
      (split_if (view.protocol == protocol_unknown)
        (λ t. rw t (
          Ensures-bind (decode_frame_into-GoodFrame view.data_bytes empty_frame a) λ r g.
            split_if (usable r.1)
              (λ u. rw u (route_frame-Outcome e1 n v1 r.0 _ g.0.payload g.0.within))
              λ u. rw u (ensures unmoved)))
        λ t.
          split_if (has e.protocols view.protocol)
            (λ t'.
              rw (t, t') (enqueue-Outcome e1 n v1 view.protocol t' view.data_bytes _ (omega arith)))
            λ t'. rw (t, t') (ensures unmoved))
      λ e' o.
        let (valid, kept) = Outcome-IsEngine e1 n e' v1 o in
        record { outcome = o; valid = valid; kept = kept }
