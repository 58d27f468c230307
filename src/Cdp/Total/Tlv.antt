-- ===== src/Cdp/Total/Tlv.antt =====
-- Each TLV of cdp.go on any value.
use omnidiscover.Prelude.{ℕ, ◌^◌, ◌<◌, not, arith, ◌==◌, split_if, length, Bytes, All, IsByte}
use omnidiscover.Go.Ensures.{
  Ensures, ensures, Ensures-bind, Ensures-index, Ensures-be16, Ensures-be32,
}
use omnidiscover.Net.{IsAddr}
use omnidiscover.Cdp.Message.{CdpDetails, CdpMessage}
use omnidiscover.Cdp.Addresses.Total.{decode_cdp_addresses-IsAddr}
use omnidiscover.Cdp.{Valid, store_capabilities, store_native_vlan, store_duplex, store_tlv}

pub record IsDetails (d : CdpDetails) : Type 0 where
  pub version : d.version < 256
  pub checksum : d.checksum < 65536
  pub native_vlan : d.native_vlan < 65536
  pub duplex : d.duplex < 256
  pub capabilities : d.capabilities < 2 ^ 32
  pub software_version : All IsByte d.software_version
  pub platform : All IsByte d.platform
  pub management_address : All IsAddr d.management_address

-- Every field lies in the width of its Go type.
pub record IsMessage (m : CdpMessage) : Type 0 where
  pub ttl_seconds : m.ttl_seconds < 256
  pub device_id : All IsByte m.device_id
  pub port_id : All IsByte m.port_id
  pub system_name : All IsByte m.system_name
  pub addresses : All IsAddr m.addresses
  pub details : IsDetails m.details

abbrev pub Good : Valid → Type 0
Good r = IsMessage r.1

module _ (v : Bytes) (m : CdpMessage) (a : All IsByte v) (g : IsMessage m) where
  store_capabilities-Good : Ensures Good (store_capabilities v m)
  unfolding store_capabilities
  store_capabilities-Good =
      split_if (not (length v == 4)) (λ t. rw t (ensures g))
        λ t. rw t (Ensures-be32 v _ (ground arith) a λ w small. ensures (ground arith))

  store_native_vlan-Good : Ensures Good (store_native_vlan v m)
  unfolding store_native_vlan
  store_native_vlan-Good =
      split_if (not (length v == 2)) (λ t. rw t (ensures g))
        λ t. rw t (Ensures-be16 v _ (ground arith) a λ w small. ensures (ground arith))

  store_duplex-Good : Ensures Good (store_duplex v m)
  unfolding store_duplex
  store_duplex-Good =
      split_if (not (length v == 1)) (λ t. rw t (ensures g))
        λ t. rw t (Ensures-index v 0 _ (ground arith) a λ w small. ensures (ground arith))

-- The switch on the type reads no byte outside of the value.
pub store_tlv-Good :
    (typ : ℕ) (v : Bytes) (m : CdpMessage)
    → All IsByte v
    → IsMessage m
    → Ensures Good (store_tlv typ v m)
unfolding store_tlv
store_tlv-Good typ v m a g =
    split_if (typ == 1) (λ t. rw t (ensures (ground arith)))
      λ t. rw t (
        split_if (typ == 2)
          (λ t. rw t (
            Ensures-bind (decode_cdp_addresses-IsAddr v m.addresses a g.addresses)
              λ r h. ensures (ground arith)))
          λ t. rw t (
            split_if (typ == 3) (λ t. rw t (ensures (ground arith)))
              λ t. rw t (
                split_if (typ == 4) (λ t. rw t (store_capabilities-Good v m a g))
                  λ t. rw t (
                    split_if (typ == 5) (λ t. rw t (ensures (ground arith)))
                      λ t. rw t (
                        split_if (typ == 6) (λ t. rw t (ensures (ground arith)))
                          λ t. rw t (
                            split_if (typ == 10) (λ t. rw t (store_native_vlan-Good v m a g))
                              λ t. rw t (
                                split_if (typ == 11) (λ t. rw t (store_duplex-Good v m a g))
                                  λ t. rw t (
                                    split_if (typ == 20) (λ t. rw t (ensures (ground arith)))
                                      λ t. rw t (
                                        split_if (typ == 22)
                                          (λ t. rw t (
                                            Ensures-bind
                                              (decode_cdp_addresses-IsAddr v
                                                m.details.management_address a
                                                g.details.management_address)
                                              λ r h. ensures (ground arith)))
                                          λ t. rw t (ensures g))))))))))
