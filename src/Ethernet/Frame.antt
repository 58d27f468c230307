-- ===== src/Ethernet/Frame.antt =====
-- `DecodeEthernetFrame` on any input.
use omnidiscover.Prelude.{
  ℕ, zero, suc, ◌+◌, ◌≤◌, ◌<◌, ◌≡◌, refl, ◌⊎◌, inl, ◌&&◌, ◌||◌, Option, none, some, arith, ◌==◌,
  split_if, split_lt, split_le, split_eq, length, Bytes, All, IsByte,
}
use omnidiscover.Go.Ensures.{
  Ensures, ensures, Ensures-bind, Ensures-index, Ensures-slice, Ensures-be16_at, Ensures-write,
}
use omnidiscover.Protocol.{
  DecodeIssue, too_short, too_many_vlan_tags, DecodeStatus, fatal, no_status, add_issue,
}
use omnidiscover.Ethernet.{
  EthernetFrame, Decoded, decode_snap, decode_llc, decode_ether_type, vlan_loop, decode_frame_into,
  decode_ethernet_frame, empty_frame, ether_type_vlan, ether_type_qinq, max_vlan_tags,
}

-- A frame that holds nothing but parts of `n` bytes of input.
pub record IsFrame (n : ℕ) (f : EthernetFrame) : Type 0 where
  pub destination : length f.destination ≡ 6
  pub source : length f.source ≡ 6
  pub vlans : length f.vlans ≡ 3
  pub vlan_count : f.vlan_count ≤ 3
  pub ether_type : f.ether_type < 65536
  pub payload : All IsByte f.payload
  pub within : length f.payload ≤ n

abbrev pub IsSettled : DecodeStatus → Type 0
IsSettled st = (st ≡ no_status) ⊎ (st.severity ≡ fatal)

abbrev pub GoodFrame : ℕ → Decoded EthernetFrame → Type 0
GoodFrame n r = IsFrame n r.0 × IsSettled r.1

pub fail-IsSettled :
    (code : DecodeIssue) (off typ : ℕ) → IsSettled (add_issue no_status fatal code off typ)
unfolding add_issue
fail-IsSettled code off typ = ground arith

decode_snap-GoodFrame :
    (n : ℕ) (dst : EthernetFrame) (off : ℕ) (content : Bytes)
    → IsFrame n dst
    → All IsByte content
    → length content ≤ n
    → Ensures (GoodFrame n) (decode_snap dst off content)
unfolding decode_snap
decode_snap-GoodFrame n dst off content f b h =
    split_lt (length content) 8 (λ e _. rw e (ensures (f, fail-IsSettled too_short (off + 3) 0)))
      λ e fits. rw e (
        Ensures-slice content 3 6 _ (omega arith) (omega arith) b λ oui _ _.
          Ensures-be16_at content 6 _ (omega arith) b λ pid small.
            Ensures-slice content 8 (length content) _ fits (omega arith) b
              λ payload size bytes. ensures (ground arith, inl refl))

decode_llc-GoodFrame :
    (n : ℕ) (dst : EthernetFrame) (off : ℕ) (content : Bytes)
    → IsFrame n dst
    → All IsByte content
    → length content ≤ n
    → Ensures (GoodFrame n) (decode_llc dst off content)
unfolding decode_llc
decode_llc-GoodFrame n dst off content f b h =
    split_lt (length content) 3 (λ e _. rw e (ensures (f, fail-IsSettled too_short off 0)))
      λ e fits. rw e (
        Ensures-index content 0 _ (omega arith) b λ d _.
          Ensures-index content 1 _ (omega arith) b λ s _.
            Ensures-index content 2 _ (omega arith) b λ c _.
              Ensures-slice content 3 (length content) _ fits (omega arith) b λ payload size bytes.
                split_if (d == 0xaa && s == 0xaa && c == 0x03)
                  (λ t. rw t (decode_snap-GoodFrame n _ off content (ground arith) b h))
                  (λ t. rw t (ensures (ground arith, inl refl))))

decode_ether_type-GoodFrame :
    (b : Bytes) (dst : EthernetFrame) (et off : ℕ)
    → IsFrame (length b) dst
    → All IsByte b
    → et < 65536
    → off ≤ length b
    → Ensures (GoodFrame (length b)) (decode_ether_type b dst et off)
unfolding decode_ether_type
decode_ether_type-GoodFrame b dst et off f a lt h =
    split_le 0x0600 et
      (λ e _. rw e (
        Ensures-slice b off (length b) _ h (omega arith) a
          λ payload size bytes. ensures (ground arith, inl refl)))
      λ e _. rw e (
        Ensures-slice b off (length b) _ h (omega arith) a λ content size bytes.
          split_lt et (length content)
            (λ t short. rw t (
              Ensures-slice content 0 et _ (omega arith) (omega arith) bytes λ cut size' bytes'.
                decode_llc-GoodFrame (length b) dst off cut f bytes' (omega arith)))
            (λ t _. rw t (decode_llc-GoodFrame (length b) dst off content f bytes (omega arith))))

vlan_loop-GoodFrame :
    (k : ℕ) (b : Bytes) (dst : EthernetFrame) (et off : ℕ)
    → IsFrame (length b) dst
    → All IsByte b
    → et < 65536
    → off ≤ length b
    → 4 ≤ k + dst.vlan_count
    → Ensures (GoodFrame (length b)) (vlan_loop k b dst et off)
unfolding vlan_loop
vlan_loop-GoodFrame zero b dst et off f a lt h fuel = absurd (omega (arith, f.vlan_count))
vlan_loop-GoodFrame (suc k) b dst et off f a lt h fuel =
    split_if (et == ether_type_vlan || et == ether_type_qinq)
      (λ tagged. rw tagged (
        split_eq dst.vlan_count max_vlan_tags
          (λ e _. rw e (ensures (f, fail-IsSettled too_many_vlan_tags off et)))
          λ e few. rw e (
            split_lt (length b) (off + 4)
              (λ e' _. rw e' (ensures (f, fail-IsSettled too_short off et)))
              λ e' fits. rw e' (
                Ensures-be16_at b off _ (omega arith) a λ tag _.
                  Ensures-write dst.vlans dst.vlan_count _ _ (omega (arith, f.vlan_count, f.vlans))
                    λ vlans size. Ensures-be16_at b (off + 2) _ (omega arith) a λ et' small.
                      vlan_loop-GoodFrame k b _ et' (off + 4) (ground arith) a small (omega arith)
                        (omega arith)))))
      λ plain. rw plain (decode_ether_type-GoodFrame b dst et off f a lt h)

pub decode_frame_into-GoodFrame :
    (b : Bytes) (dst : EthernetFrame)
    → All IsByte b
    → Ensures (GoodFrame (length b)) (decode_frame_into b dst)
unfolding decode_frame_into
decode_frame_into-GoodFrame b dst a =
    split_lt (length b) 14
      (λ e _. rw e (ensures (ground arith, fail-IsSettled too_short (length b) 0)))
      λ e fits. rw e (
        Ensures-slice b 0 6 _ (omega arith) (omega arith) a λ d size _.
          Ensures-slice b 6 12 _ (omega arith) (omega arith) a λ s size' _.
            Ensures-be16_at b 12 _ (omega arith) a λ et small.
              vlan_loop-GoodFrame 5 b (record empty_frame { destination = d; source = s }) et 14
                (ground arith) a small (omega arith) (omega arith))

-- What `*dst` holds is a frame made of the input, and a nil `dst` stays nil.
abbrev pub GoodResult : ℕ → Decoded (Option EthernetFrame) → Type 0
GoodResult n (some f, st) = IsFrame n f × IsSettled st
GoodResult n (none, st) = st.severity ≡ fatal

-- On any bytes `DecodeEthernetFrame` returns without a panic. A frame that it leaves in `*dst` has
-- two MACs of six bytes, at most three VLAN tags and a 16-bit EtherType, and its payload is no
-- longer than the input; the status has no issue or is fatal, and it is fatal if `dst` is nil.
pub decode_ethernet_frame-total :
    (b : Bytes) (dst : Option EthernetFrame)
    → All IsByte b
    → Ensures (GoodResult (length b)) (decode_ethernet_frame b dst)
unfolding decode_ethernet_frame add_issue
decode_ethernet_frame-total b none a = ensures refl
decode_ethernet_frame-total b (some dst) a =
    Ensures-bind (decode_frame_into-GoodFrame b dst a) λ r g. ensures g
