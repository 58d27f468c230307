-- ===== src/Classifier/Match.antt =====
-- classifier.go: whether a predicate matches a device. A nil `re` and a slice out of range panic.
pub mod Holds
pub mod Populated
use omnidiscover.Prelude.{
  ℕ, ◌+◌, ◌-◌, ◌*◌, ◌/◌, ◌%◌, ◌^◌, Bool, true, false, not, ◌&&◌, ◌||◌, List, [], ◌∷◌, Option, none,
  some, ltb, leb, ◌==◌, if◌then◌else◌, length, map, bit_and, bit_or, Bytes, equal,
}
use omnidiscover.Go.{Go, ret, panic, ◌>>=◌, index, slice}
use omnidiscover.Net.{Mac, Addr}
use omnidiscover.Net.Prefix.{Prefix, prefix_contains}
use omnidiscover.Model.{TextField, Service, DiscoveredDevice}
use omnidiscover.Classifier.Rule.{
  MatchField, field_system_name, field_host_name, field_device_id, field_model, field_platform,
  field_software_version, field_service_instance, field_service_type, field_service_txt, MatchOp,
  match_exact, match_regex, match_protocol, match_mac_prefix, match_ip_prefix, match_capability_all,
  invalid_op, MacPrefix, Regexp, CompiledPredicate,
}

-- `macPrefixMatch`
unfoldable pub mac_prefix_match : Mac → MacPrefix → Go Bool
mac_prefix_match m p = do
  a ← slice m 0 (p.bits / 8)
  b ← slice p.address 0 (p.bits / 8)
  if not (equal a b) then ret false else if p.bits % 8 == 0 then ret true else do
    x ← index m (p.bits / 8)
    y ← index p.address (p.bits / 8)
    let mask = 255 * 2 ^ (8 - p.bits % 8) % 256
    ret (bit_and x mask == bit_and y mask)

-- A letter in lower case
abbrev pub fold_byte : ℕ → ℕ
fold_byte x = if leb b'A' x && leb x b'Z' then x + 32 else x

unfoldable pub equal_fold_loop : Bytes → Bytes → Bool
equal_fold_loop (x ∷ xs) (y ∷ ys) =
    if not (fold_byte x == fold_byte y) then false else equal_fold_loop xs ys
equal_fold_loop _ _ = true

-- `equalFoldASCII`
unfoldable pub equal_fold_ascii : Bytes → Bytes → Bool
equal_fold_ascii a b = if not (length a == length b) then false else equal_fold_loop a b

-- The two loops of `visitTextField`
unfoldable pub visit_values : List Bytes → (Bytes → Go Bool) → Go Bool
visit_values [] fn = ret false
visit_values (t ∷ ts) fn = fn t >>= elim [ true ↦ ret true | false ↦ visit_values ts fn ]

abbrev pub values_of : TextField → List Bytes
values_of f = map (λ v. v.value) f.values

abbrev pub service_text : MatchField → Service → Bytes
service_text field s =
    if field == field_service_instance
    then s.instance_name
    else if field == field_service_type
    then s.type
    else s.txt

-- The texts that `visitTextField` goes over
unfoldable pub texts : DiscoveredDevice → MatchField → List Bytes
texts d field =
    if field == field_system_name
    then values_of d.system_name
    else if field == field_host_name
    then values_of d.host_name
    else if field == field_device_id
    then values_of d.protocol_device_id
    else if field == field_model
    then values_of d.model
    else if field == field_platform
    then values_of d.platform
    else if field == field_software_version
    then values_of d.software_version
    else if leb field_service_instance field && leb field field_service_txt
    then map (service_text field) d.services
    else []

-- `visitTextField`
unfoldable pub visit_text_field : DiscoveredDevice → MatchField → (Bytes → Go Bool) → Go Bool
visit_text_field d field fn = visit_values (texts d field) fn

-- The function that `matchPredicate` visits the texts with
abbrev pub match_regexp : Regexp → Option Bytes → Bytes → Go Bool
match_regexp rx none v = panic
match_regexp rx (some pat) v = ret (rx.finds pat v)

abbrev pub match_text : CompiledPredicate → Bytes → Go Bool
match_text p v =
    ret (if p.predicate.fold_ascii then equal_fold_ascii v p.exact else equal v p.exact)

unfoldable pub any_mac : List Mac → MacPrefix → Go Bool
any_mac [] p = ret false
any_mac (m ∷ ms) p = mac_prefix_match m p >>= elim [ true ↦ ret true | false ↦ any_mac ms p ]

unfoldable pub any_address : List Addr → Prefix → Bool
any_address [] p = false
any_address (a ∷ as') p = if prefix_contains p a then true else any_address as' p

unfoldable pub match_op : Regexp → CompiledPredicate → MatchOp → DiscoveredDevice → Go Bool
match_op rx p match_protocol d = ret (not (bit_and d.protocols p.predicate.protocol == 0))
match_op rx p match_mac_prefix d = any_mac d.observed_macs p.predicate.mac_prefix
match_op rx p match_ip_prefix d = ret (any_address d.addresses p.predicate.ip_prefix)
match_op rx p match_capability_all d =
    ret (bit_and d.capabilities p.predicate.capability == p.predicate.capability)
match_op rx p match_exact d = visit_text_field d p.predicate.field (match_text p)
match_op rx p match_regex d = visit_text_field d p.predicate.field (match_regexp rx p.re)
match_op rx p (invalid_op n) d = ret false

-- `matchPredicate`
unfoldable pub match_predicate : Regexp → CompiledPredicate → DiscoveredDevice → Go Bool
match_predicate rx p d = match_op rx p p.predicate.op d

-- `allPredicates`
unfoldable pub all_predicates : Regexp → List CompiledPredicate → DiscoveredDevice → Go Bool
all_predicates rx [] d = ret true
all_predicates rx (p ∷ ps) d =
    match_predicate rx p d >>= elim [ true ↦ all_predicates rx ps d | false ↦ ret false ]

-- `anyPredicates`
unfoldable pub any_predicates : Regexp → List CompiledPredicate → DiscoveredDevice → Go Bool
any_predicates rx [] d = ret false
any_predicates rx (p ∷ ps) d =
    match_predicate rx p d >>= elim [ true ↦ ret true | false ↦ any_predicates rx ps d ]

-- The six fields of `populatedTextFields` that are texts of the device
abbrev pub mark_field : ℕ → MatchField → TextField → ℕ
mark_field fields field f = if not (length f.values == 0) then bit_or fields (2 ^ field) else fields

abbrev pub mark_text : ℕ → MatchField → Bytes → ℕ
mark_text fields field t = if not (length t == 0) then bit_or fields (2 ^ field) else fields

unfoldable pub mark_services : ℕ → List Service → ℕ
mark_services fields [] = fields
mark_services fields (s ∷ ss) =
    let with_instance = mark_text fields field_service_instance s.instance_name in
    let with_type = mark_text with_instance field_service_type s.type in
    mark_services (mark_text with_type field_service_txt s.txt) ss

-- `populatedTextFields`
unfoldable pub populated_text_fields : DiscoveredDevice → ℕ
populated_text_fields d =
    let system_name = mark_field 0 field_system_name d.system_name in
    let host_name = mark_field system_name field_host_name d.host_name in
    let device_id = mark_field host_name field_device_id d.protocol_device_id in
    let model = mark_field device_id field_model d.model in
    let platform = mark_field model field_platform d.platform in
    mark_services (mark_field platform field_software_version d.software_version) d.services
