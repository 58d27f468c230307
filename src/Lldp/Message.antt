-- ===== src/Lldp/Message.antt =====
-- `LLDPMessage` of lldp.go and its parts, of model.go, and `Reset`.
use Prim.Native.Nat.{ℕ}
use mathlib.Core.Bool.{Bool, false}
use mathlib.Core.List.{List, [], ◌∷◌}
use omnidiscover.Prelude.{Bytes}
use omnidiscover.Net.{Mac, zero_mac}

pub record Identifier : Type 0 where
  pub subtype : ℕ
  pub value : Bytes

pub record ManagementAddress : Type 0 where
  pub subtype : ℕ
  pub address : Bytes
  pub interface_subtype : ℕ
  pub interface_number : ℕ
  pub oid : Bytes

pub record Vlan : Type 0 where
  pub id : ℕ
  pub name : Bytes

pub record LinkAggregation : Type 0 where
  pub present : Bool
  pub supported : Bool
  pub enabled : Bool
  pub id : ℕ

pub record MacPhy : Type 0 where
  pub present : Bool
  pub autoneg_supported : Bool
  pub autoneg_enabled : Bool
  pub advertised_capabilities : ℕ
  pub operational_mau_type : ℕ

pub record LldpDetails : Type 0 where
  pub port_description : Bytes
  pub system_description : Bytes
  pub system_capabilities : ℕ
  pub enabled_capabilities : ℕ
  pub pvid : ℕ
  pub has_pvid : Bool
  pub vlans : List Vlan
  pub link_aggregation : LinkAggregation
  pub mac_phy : MacPhy
  pub maximum_frame_size : ℕ
  pub has_maximum_frame_size : Bool

pub record LldpMessage : Type 0 where
  pub source_mac : Mac
  pub capture_vlans : List ℕ
  pub capture_vlan_count : ℕ
  pub chassis_id : Identifier
  pub port_id : Identifier
  pub ttl_seconds : ℕ
  pub system_name : Bytes
  pub management_addresses : List ManagementAddress
  pub details : LldpDetails

abbrev pub no_identifier : Identifier
no_identifier = record { subtype = 0; value = [] }

abbrev pub no_aggregation : LinkAggregation
no_aggregation = record { present = false; supported = false; enabled = false; id = 0 }

abbrev pub no_mac_phy : MacPhy
no_mac_phy = record {
  present = false;
  autoneg_supported = false;
  autoneg_enabled = false;
  advertised_capabilities = 0;
  operational_mau_type = 0;
}

-- `LLDPMessage{}`
abbrev pub empty_message : LldpMessage
empty_message = record {
  source_mac = zero_mac;
  capture_vlans = 0 ∷ 0 ∷ 0 ∷ [];
  capture_vlan_count = 0;
  chassis_id = no_identifier;
  port_id = no_identifier;
  ttl_seconds = 0;
  system_name = [];
  management_addresses = [];
  details = record {
    port_description = [];
    system_description = [];
    system_capabilities = 0;
    enabled_capabilities = 0;
    pvid = 0;
    has_pvid = false;
    vlans = [];
    link_aggregation = no_aggregation;
    mac_phy = no_mac_phy;
    maximum_frame_size = 0;
    has_maximum_frame_size = false;
  };
}

-- `LLDPMessage.Reset`, statement by statement
unfoldable pub reset : LldpMessage → LldpMessage
reset m = record m {
  source_mac = zero_mac;
  capture_vlans = 0 ∷ 0 ∷ 0 ∷ [];
  capture_vlan_count = 0;
  chassis_id = record m.chassis_id { subtype = 0; value = [] };
  port_id = record m.port_id { subtype = 0; value = [] };
  ttl_seconds = 0;
  system_name = [];
  management_addresses = [];
  details = record m.details {
    port_description = [];
    system_description = [];
    vlans = [];
    system_capabilities = 0;
    enabled_capabilities = 0;
    pvid = 0;
    has_pvid = false;
    link_aggregation = no_aggregation;
    mac_phy = no_mac_phy;
    maximum_frame_size = 0;
    has_maximum_frame_size = false;
  };
}
