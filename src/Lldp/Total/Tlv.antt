-- ===== src/Lldp/Total/Tlv.antt =====
-- Each TLV of lldp.go on any value.
use omnidiscover.Prelude.{
  ℕ, ◌+◌, ◌^◌, ◌≤◌, ◌<◌, ◌≡◌, false, not, ◌&&◌, ◌||◌, [], ◌∷◌, Option, none, some, arith, ltb, ◌==◌,
  split_if, split_lt, length, Bytes, All, All-append, IsByte,
}
use omnidiscover.Go.{ret}
use omnidiscover.Go.Ensures.{
  Ensures, ensures, Ensures-bind, Ensures-index, Ensures-slice, Ensures-be16_at, Ensures-be32_at,
  Ensures-be16, Ensures-be32,
}
use omnidiscover.Lldp.Message.{Identifier, ManagementAddress, Vlan, LldpDetails, LldpMessage}
use omnidiscover.Lldp.{
  Valid, decode_lldp_management, decode_pvid, decode_vlan_name, decode_link_aggregation,
  decode_mac_phy, decode_frame_size, decode_lldp_organizational, identifier_of, set_chassis_id,
  set_port_id, decode_ttl, decode_capabilities, decode_tlv,
}

abbrev pub IsIdentifier : Identifier → Type 0
IsIdentifier i = (i.subtype < 256) × All IsByte i.value

pub record IsManagementAddress (m : ManagementAddress) : Type 0 where
  pub address : All IsByte m.address
  pub address_size : length m.address ≤ 30
  pub interface_number : m.interface_number < 2 ^ 32
  pub oid : All IsByte m.oid

abbrev pub IsVlan : Vlan → Type 0
IsVlan v = (v.id < 65536) × All IsByte v.name

pub record IsDetails (d : LldpDetails) : Type 0 where
  pub port_description : All IsByte d.port_description
  pub system_description : All IsByte d.system_description
  pub system_capabilities : d.system_capabilities < 65536
  pub enabled_capabilities : d.enabled_capabilities < 65536
  pub pvid : d.pvid < 65536
  pub vlans : All IsVlan d.vlans
  pub maximum_frame_size : d.maximum_frame_size < 65536

-- Every field lies in the width of its Go type.
pub record IsMessage (m : LldpMessage) : Type 0 where
  pub chassis_id : IsIdentifier m.chassis_id
  pub port_id : IsIdentifier m.port_id
  pub ttl_seconds : m.ttl_seconds < 65536
  pub system_name : All IsByte m.system_name
  pub management_addresses : All IsManagementAddress m.management_addresses
  pub details : IsDetails m.details

abbrev pub Good : Valid → Type 0
Good r = IsMessage r.1

reject : (m : LldpMessage) → IsMessage m → Ensures Good (ret (false, m))
reject m g = ensures g

decode_lldp_management-Good :
    (v : Bytes) (m : LldpMessage)
    → All IsByte v
    → IsMessage m
    → Ensures Good (decode_lldp_management v m)
unfolding decode_lldp_management
decode_lldp_management-Good v m a g =
    split_lt (length v) 8 (λ e _. rw e (reject m g))
      λ e fits. rw e (
        Ensures-index v 0 _ (omega arith) a λ n _.
          split_if (ltb n 1 || ltb 31 n || ltb (length v) (1 + n + 6)) (λ t. rw t (reject m g))
            λ t. rw t (
              Ensures-index v (1 + n + 5) _ (ground arith) a λ k _.
                split_if (not (1 + n + 6 + k == length v)) (λ t'. rw t' (reject m g))
                  λ t'. rw t' (
                    Ensures-index v 1 _ (ground arith) a λ subtype _.
                      Ensures-slice v 2 (1 + n) _ (ground arith) (ground arith) a λ address size b.
                        Ensures-index v (1 + n) _ (ground arith) a λ interface _.
                          Ensures-be32_at v (1 + n + 1) _ (ground arith) a λ number small.
                            Ensures-slice v (1 + n + 6) (length v) _ (ground arith) (omega arith) a
                              λ oid _ b'. ensures (record {
                                chassis_id = g.chassis_id;
                                port_id = g.port_id;
                                ttl_seconds = g.ttl_seconds;
                                system_name = g.system_name;
                                management_addresses =
                                    All-append IsManagementAddress m.management_addresses _
                                      g.management_addresses
                                      (
                                        record {
                                          address = b;
                                          address_size = ground arith;
                                          interface_number = small;
                                          oid = b';
                                        },
                                        tt,
                                      );
                                details = g.details;
                              }))))

module _ (body : Bytes) (m : LldpMessage) (a : All IsByte body) (g : IsMessage m) where
  decode_pvid-Good : Ensures Good (decode_pvid body m)
  unfolding decode_pvid
  decode_pvid-Good =
      split_if (not (length body == 2)) (λ t. rw t (reject m g))
        λ t. rw t (Ensures-be16 body _ (ground arith) a λ w small. ensures (ground arith))

  decode_vlan_name-Good : Ensures Good (decode_vlan_name body m)
  unfolding decode_vlan_name
  decode_vlan_name-Good =
      split_lt (length body) 3 (λ e _. rw e (reject m g))
        λ e fits. rw e (
          Ensures-index body 2 _ fits a λ n _.
            split_if (not (3 + n == length body)) (λ t. rw t (reject m g))
              λ t. rw t (
                Ensures-be16_at body 0 _ (omega arith) a λ id small.
                  Ensures-slice body 3 (length body) _ fits (omega arith) a λ name _ b. ensures (
                    ground (
                      arith,
                      All-append IsVlan m.details.vlans (record { id = id; name = name } ∷ [])
                          g.details.vlans ((small, b), tt),
                    ))))

  decode_link_aggregation-Good : Ensures Good (decode_link_aggregation body m)
  unfolding decode_link_aggregation
  decode_link_aggregation-Good =
      split_if (not (length body == 5)) (λ t. rw t (reject m g))
        λ t. rw t (
          Ensures-index body 0 _ (ground arith) a λ flags _.
            Ensures-slice body 1 (length body) _ (ground arith) (omega arith) a
              λ rest size b. Ensures-be32 rest _ (ground arith) b λ id _. ensures (ground arith))

  decode_mac_phy-Good : Ensures Good (decode_mac_phy body m)
  unfolding decode_mac_phy
  decode_mac_phy-Good =
      split_if (not (length body == 5)) (λ t. rw t (reject m g))
        λ t. rw t (
          Ensures-index body 0 _ (ground arith) a λ flags _.
            Ensures-be16_at body 1 _ (ground arith) a
              λ x _. Ensures-be16_at body 3 _ (ground arith) a λ y _. ensures (ground arith))

  decode_frame_size-Good : Ensures Good (decode_frame_size body m)
  unfolding decode_frame_size
  decode_frame_size-Good =
      split_if (not (length body == 2)) (λ t. rw t (reject m g))
        λ t. rw t (Ensures-be16 body _ (ground arith) a λ w small. ensures (ground arith))

decode_lldp_organizational-Good :
    (v : Bytes) (m : LldpMessage)
    → All IsByte v
    → IsMessage m
    → Ensures Good (decode_lldp_organizational v m)
unfolding decode_lldp_organizational
decode_lldp_organizational-Good v m a g =
    split_lt (length v) 4 (λ e _. rw e (reject m g))
      λ e fits. rw e (
        Ensures-slice v 4 (length v) _ fits (omega arith) a λ body _ b.
          Ensures-index v 3 _ fits a λ subtype _. Ensures-index v 0 _ (omega arith) a λ o _.
            Ensures-index v 1 _ (omega arith) a λ u _. Ensures-index v 2 _ (omega arith) a λ i _.
              split_if (o == 0x00 && u == 0x80 && i == 0xc2)
                (λ t. rw t (
                  split_if (subtype == 1) (λ s. rw s (decode_pvid-Good body m b g))
                    λ s. rw s (
                      split_if (subtype == 3) (λ s'. rw s' (decode_vlan_name-Good body m b g))
                        λ s'. rw s' (
                          split_if (subtype == 7)
                            (λ s''. rw s'' (decode_link_aggregation-Good body m b g))
                            λ s''. rw s'' (ensures g)))))
                λ t. rw t (
                  split_if (o == 0x00 && u == 0x12 && i == 0x0f)
                    (λ t'. rw t' (
                      split_if (subtype == 1) (λ s. rw s (decode_mac_phy-Good body m b g))
                        λ s. rw s (
                          split_if (subtype == 4) (λ s'. rw s' (decode_frame_size-Good body m b g))
                            λ s'. rw s' (ensures g))))
                    λ t'. rw t' (ensures g)))

module _ (size : ℕ) (v : Bytes) (e : length v ≡ size) (a : All IsByte v) where
  -- An identifier is there exactly if the TLV has two bytes.
  abbrev GoodIdentifier : Option Identifier → Type 0
  GoodIdentifier none = size < 2
  GoodIdentifier (some i) = IsIdentifier i

  identifier_of-Good : Ensures GoodIdentifier (identifier_of size v)
  unfolding identifier_of
  identifier_of-Good =
      split_lt size 2 (λ t h. rw t (ensures h))
        λ t h. rw t (
          Ensures-index v 0 _ (omega arith) a λ subtype small.
            Ensures-slice v 1 (length v) _ (omega arith) (omega arith) a
              λ rest _ b. ensures (small, b))

  module _ (m : LldpMessage) (g : IsMessage m) where
    set_chassis_id-Good : (o : Option Identifier) → GoodIdentifier o → Good (set_chassis_id m o)
    unfolding set_chassis_id
    set_chassis_id-Good none h = g
    set_chassis_id-Good (some i) h = ground arith

    set_port_id-Good : (o : Option Identifier) → GoodIdentifier o → Good (set_port_id m o)
    unfolding set_port_id
    set_port_id-Good none h = g
    set_port_id-Good (some i) h = ground arith

    decode_ttl-Good : Ensures Good (decode_ttl size v m)
    unfolding decode_ttl
    decode_ttl-Good =
        split_if (not (size == 2)) (λ t. rw t (reject m g))
          λ t. rw t (Ensures-be16 v _ (ground arith) a λ w small. ensures (ground arith))

    decode_capabilities-Good : Ensures Good (decode_capabilities size v m)
    unfolding decode_capabilities
    decode_capabilities-Good =
        split_if (not (size == 4)) (λ t. rw t (reject m g))
          λ t. rw t (
            Ensures-be16_at v 0 _ (ground arith) a λ system small.
              Ensures-slice v 2 (length v) _ (ground arith) (omega arith) a λ rest size' b.
                Ensures-be16 rest _ (ground arith) b λ enabled small'. ensures (ground arith))

-- The switch on the type reads no byte outside of the value.
pub decode_tlv-Good :
    (typ size : ℕ) (v : Bytes) (m : LldpMessage)
    → length v ≡ size
    → All IsByte v
    → IsMessage m
    → Ensures Good (decode_tlv typ size v m)
unfolding decode_tlv
decode_tlv-Good typ size v m e a g =
    split_if (typ == 1)
      (λ t. rw t (
        Ensures-bind (identifier_of-Good size v e a)
          λ o h. ensures (set_chassis_id-Good size v e a m g o h)))
      λ t. rw t (
        split_if (typ == 2)
          (λ t. rw t (
            Ensures-bind (identifier_of-Good size v e a)
              λ o h. ensures (set_port_id-Good size v e a m g o h)))
          λ t. rw t (
            split_if (typ == 3) (λ t. rw t (decode_ttl-Good size v e a m g))
              λ t. rw t (
                split_if (typ == 4) (λ t. rw t (ensures (ground arith)))
                  λ t. rw t (
                    split_if (typ == 5) (λ t. rw t (ensures (ground arith)))
                      λ t. rw t (
                        split_if (typ == 6) (λ t. rw t (ensures (ground arith)))
                          λ t. rw t (
                            split_if (typ == 7)
                              (λ t. rw t (decode_capabilities-Good size v e a m g))
                              λ t. rw t (
                                split_if (typ == 8)
                                  (λ t. rw t (decode_lldp_management-Good v m a g))
                                  λ t. rw t (
                                    split_if (typ == 9)
                                      (λ t. rw t (decode_lldp_organizational-Good v m a g))
                                      λ t. rw t (ensures g)))))))))
