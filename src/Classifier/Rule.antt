-- ===== src/Classifier/Rule.antt =====
-- classifier.go: rules and predicates, as they are written and as they are compiled. A `string` is
-- its bytes, and an `int` that may be negative is a ℤ.
use omnidiscover.Prelude.{ℕ, Bool, ◌&&◌, List, leb, Option, Bytes}
use omnidiscover.Prelude.Int.{ℤ}
use omnidiscover.Protocol.{ProtocolSet}
use omnidiscover.Net.{Mac}
use omnidiscover.Net.Prefix.{Prefix}

-- `MatchField` is a `uint8`; the texts are those from `MatchFieldSystemName` on.
abbrev pub MatchField : Type 0
MatchField = ℕ

abbrev pub field_protocol : MatchField
field_protocol = 1

abbrev pub field_observed_mac : MatchField
field_observed_mac = 2

abbrev pub field_address : MatchField
field_address = 3

abbrev pub field_capabilities : MatchField
field_capabilities = 4

abbrev pub field_system_name : MatchField
field_system_name = 5

abbrev pub field_host_name : MatchField
field_host_name = 6

abbrev pub field_device_id : MatchField
field_device_id = 7

abbrev pub field_model : MatchField
field_model = 8

abbrev pub field_platform : MatchField
field_platform = 9

abbrev pub field_software_version : MatchField
field_software_version = 10

abbrev pub field_service_instance : MatchField
field_service_instance = 11

abbrev pub field_service_type : MatchField
field_service_type = 12

abbrev pub field_service_txt : MatchField
field_service_txt = 13

-- `isTextField`
unfoldable pub is_text_field : MatchField → Bool
is_text_field f = leb field_system_name f && leb f field_service_txt

-- `MatchOp`, with the numbers that name no operation
pub data MatchOp : Type 0 where
  match_exact match_regex match_protocol match_mac_prefix match_ip_prefix match_capability_all :
      MatchOp
  invalid_op : ℕ → MatchOp

pub record MacPrefix : Type 0 where
  pub address : Mac
  pub bits : ℕ

pub record Predicate : Type 0 where
  pub field : MatchField
  pub op : MatchOp
  pub value : Bytes
  pub pattern_text : Bytes
  pub protocol : ProtocolSet
  pub mac_prefix : MacPrefix
  pub ip_prefix : Prefix
  pub capability : ℕ
  pub fold_ascii : Bool

pub record Rule : Type 0 where
  pub name : Bytes
  pub class : Bytes
  pub priority : ℤ
  pub all : List Predicate
  pub any : List Predicate
  pub none : List Predicate

-- The package `regexp`: whether a pattern compiles, and whether what it compiles to finds a match in
-- a text. A compiled expression stands as its pattern.
pub record Regexp : Type 0 where
  pub compiles : Bytes → Bool
  pub finds : Bytes → Bytes → Bool

-- `compiledPredicate`, whose `re` may be nil
pub record CompiledPredicate : Type 0 where
  pub predicate : Predicate
  pub exact : Bytes
  pub re : Option Bytes

pub record CompiledRule : Type 0 where
  pub name : Bytes
  pub class : Bytes
  pub priority : ℤ
  pub specificity : ℕ
  pub order : ℕ
  pub all : List CompiledPredicate
  pub any : List CompiledPredicate
  pub none : List CompiledPredicate
  pub required : ℕ

-- `protocolCandidates` is a list of 16 masks of four words.
pub record Classifier : Type 0 where
  pub rules : List CompiledRule
  pub protocol_candidates : List (List ℕ)
