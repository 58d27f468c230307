-- ===== src/Classifier/Match/Populated.antt =====
-- The set of text fields that `Classify` compares at once says which fields a device has texts for.
use omnidiscover.Prelude.{
  ℕ, suc, ◌%◌, ◌^◌, ◌≤◌, ◌<◌, ◌≡◌, refl, sym, ap, ◌∙◌, Bool, true, false, not, ◌&&◌, ◌||◌, List, [],
  ◌∷◌, leb, ◌==◌, ==_iff, if◌then◌else◌, split_if, split_le, length, map, all, any, bit_and, bit_or,
  Bytes, arith,
}
use omnidiscover.Prelude.Bits.{all_below, all_below_sound}
use omnidiscover.Prelude.Digits.{
  test_bit, test_bit-zero, test_bit-and, test_bit-or, test_bit-power, eq_of_bits, bit_and-le,
}
use omnidiscover.Model.{TextField, TextValue, Service, DiscoveredDevice}
use omnidiscover.Classifier.Rule.{
  MatchField, field_system_name, field_host_name, field_device_id, field_model, field_platform,
  field_software_version, field_service_instance, field_service_type, field_service_txt,
  is_text_field, CompiledPredicate,
}
use omnidiscover.Classifier.Compile.{required_fields}
use omnidiscover.Classifier.Match.{
  texts, values_of, service_text, mark_field, mark_text, mark_services, populated_text_fields,
}

abbrev nonempty : Bytes → Bool
nonempty t = not (length t == 0)

-- A device has a text for a field of its own if that has a value, and one for a field of its services
-- if a service has it and it is not empty.
unfoldable pub populated : DiscoveredDevice → MatchField → Bool
populated d field =
    if leb field_service_instance field
    then any nonempty (texts d field)
    else not (length (texts d field) == 0)

mark_field-bit :
    (j fields field : ℕ) (f : TextField)
    → test_bit j (mark_field fields field f)
      ≡ (test_bit j fields || (j == field && not (length f.values == 0)))
mark_field-bit j fields field f =
    split_if (not (length f.values == 0))
      (λ e. rw (e, test_bit-or j fields (2 ^ field), test_bit-power j field) (ground arith))
      λ e. rw e (ground arith)

mark_text-bit :
    (j fields field : ℕ) (t : Bytes)
    → test_bit j (mark_text fields field t) ≡ (test_bit j fields || (j == field && nonempty t))
mark_text-bit j fields field t =
    split_if (nonempty t)
      (λ e. rw (e, test_bit-or j fields (2 ^ field), test_bit-power j field) (ground arith))
      λ e. rw e (ground arith)

abbrev service_bit : ℕ → Service → Bool
service_bit j s =
    j == field_service_instance && nonempty s.instance_name
    || (j == field_service_type && nonempty s.type || j == field_service_txt && nonempty s.txt)

mark_services-bit :
    (j fields : ℕ) (ss : List Service)
    → test_bit j (mark_services fields ss) ≡ (test_bit j fields || any (service_bit j) ss)
unfolding mark_services
mark_services-bit j fields [] = ground arith
mark_services-bit j fields (s ∷ ss) =
    let one = mark_text fields field_service_instance s.instance_name in
    let two = mark_text one field_service_type s.type in
    mark_services-bit j (mark_text two field_service_txt s.txt) ss
    ∙ rw
        (
          mark_text-bit j two field_service_txt s.txt,
          mark_text-bit j one field_service_type s.type,
          mark_text-bit j fields field_service_instance s.instance_name,
        )
        (ground arith)

length-map {ℓ κ} :
    {A : Type ℓ} {B : Type κ} (f : A → B) (xs : List A) → length (map f xs) ≡ length xs
length-map f [] = refl
length-map f (x ∷ xs) = ap suc (length-map f xs)

any_service :
    (j : ℕ) (ss : List Service)
    → 11 ≤ j
    → j ≤ 13
    → any nonempty (map (service_text j) ss) ≡ any (service_bit j) ss
any_service j [] p q = refl
any_service j (s ∷ ss) p q = ground (arith, any_service j ss p q)

no_service_bit : (j : ℕ) (ss : List Service) → j < 11 → any (service_bit j) ss ≡ false
no_service_bit j [] p = refl
no_service_bit j (s ∷ ss) p = ground (arith, no_service_bit j ss p)

abbrev own_bits : ℕ → DiscoveredDevice → Bool
own_bits j d =
    ((((j == field_system_name && not (length d.system_name.values == 0)
            || j == field_host_name && not (length d.host_name.values == 0))
          || j == field_device_id && not (length d.protocol_device_id.values == 0))
        || j == field_model && not (length d.model.values == 0))
      || j == field_platform && not (length d.platform.values == 0))
    || j == field_software_version && not (length d.software_version.values == 0)

populated_text_fields-bits :
    (d : DiscoveredDevice) (j : ℕ)
    → test_bit j (populated_text_fields d) ≡ (own_bits j d || any (service_bit j) d.services)
unfolding populated_text_fields
populated_text_fields-bits d j =
    let system_name = mark_field 0 field_system_name d.system_name in
    let host_name = mark_field system_name field_host_name d.host_name in
    let device_id = mark_field host_name field_device_id d.protocol_device_id in
    let model = mark_field device_id field_model d.model in
    let platform = mark_field model field_platform d.platform in
    let software_version = mark_field platform field_software_version d.software_version in
    mark_services-bit j software_version d.services
    ∙ rw (
      mark_field-bit j platform field_software_version d.software_version,
      mark_field-bit j model field_platform d.platform,
      mark_field-bit j device_id field_model d.model,
      mark_field-bit j host_name field_device_id d.protocol_device_id,
      mark_field-bit j system_name field_host_name d.host_name,
      mark_field-bit j 0 field_system_name d.system_name,
      test_bit-zero j,
    )

length-values_of : (f : TextField) → length (values_of f) ≡ length f.values
length-values_of f = length-map (λ (v : TextValue). v.value) f.values

own_populated :
    (d : DiscoveredDevice) (j : ℕ) → 5 ≤ j → j < 11 → own_bits j d ≡ not (length (texts d j) == 0)
unfolding texts
own_populated d j p q = ground (
  arith,
  length-values_of d.system_name,
  length-values_of d.host_name,
  length-values_of d.protocol_device_id,
  length-values_of d.model,
  length-values_of d.platform,
  length-values_of d.software_version,
)

no_own_bits : (d : DiscoveredDevice) (j : ℕ) → 11 ≤ j → own_bits j d ≡ false
no_own_bits d j p = ground arith

service_populated :
    (d : DiscoveredDevice) (j : ℕ)
    → 11 ≤ j
    → j ≤ 13
    → any (service_bit j) d.services ≡ any nonempty (texts d j)
unfolding texts
service_populated d j p q = ground (arith, any_service j d.services)

populated_text_fields-populated :
    (d : DiscoveredDevice) (j : ℕ)
    → 5 ≤ j
    → j ≤ 13
    → test_bit j (populated_text_fields d) ≡ populated d j
unfolding populated
populated_text_fields-populated d j p q =
    populated_text_fields-bits d j
    ∙ split_le 11 j
        (λ e service. rw (e, no_own_bits d j service, service_populated d j service q) refl)
        λ e own. rw (e, own_populated d j p own, no_service_bit j d.services own) (or_false _)
  where
    or_false : (b : Bool) → (b || false) ≡ b
    or_false b = ground arith

-- Every digit of the one word is one of the other.
abbrev Subset : ℕ → ℕ → Type 0
Subset a b = (j : ℕ) → test_bit j a ≡ true → test_bit j b ≡ true

subset_of_and : (a b : ℕ) → bit_and a b ≡ a → Subset a b
subset_of_and a b e j t = ground (arith, test_bit-and j a b, ap (test_bit j) e)

and_of_subset : (a b : ℕ) → Subset a b → bit_and a b ≡ a
and_of_subset a b h =
    eq_of_bits a (bit_and a b) a (bit_and-le a b) (omega arith)
      λ j. test_bit-and j a b ∙ split_if (test_bit j a) (λ e. rw (e, h j e)) λ e. rw e

both_ways : (x y : Bool) → (x ≡ true → y ≡ true) → (y ≡ true → x ≡ true) → x ≡ y
both_ways true y p q = sym (p refl)
both_ways false true p q = q refl
both_ways false false p q = refl

-- One more digit in the word is one more to be found.
add_digit :
    (a b f : ℕ)
    → (bit_and (bit_or a (2 ^ f)) b == bit_or a (2 ^ f)) ≡ (bit_and a b == a && test_bit f b)
add_digit a b f = both_ways _ _ to of
  where
    digit : (j : ℕ) → test_bit j (bit_or a (2 ^ f)) ≡ (test_bit j a || j == f)
    digit j = rw (test_bit-or j a (2 ^ f), test_bit-power j f)

    to :
        (bit_and (bit_or a (2 ^ f)) b == bit_or a (2 ^ f)) ≡ true
        → (bit_and a b == a && test_bit f b) ≡ true
    to e =
        let sub = subset_of_and (bit_or a (2 ^ f)) b ((==_iff _ _).0 e) in
        let rest = (==_iff (bit_and a b) a).1 (and_of_subset a b (λ j t. sub j (digit j ∙ rw t))) in
        let found = sub f (digit f ∙ ground arith) in rw (rest, found)

    of :
        (bit_and a b == a && test_bit f b) ≡ true
        → (bit_and (bit_or a (2 ^ f)) b == bit_or a (2 ^ f)) ≡ true
    of e =
        let rest : bit_and a b ≡ a = ground arith in
        let found : test_bit f b ≡ true = ground arith in
        let sub = subset_of_and a b rest in
        (==_iff _ _).1 (
          and_of_subset _ b (λ j t.
            split_if (test_bit j a) (sub j)
              λ other. let same : j ≡ f = ground (arith, digit j) in rw same found))

no_overflow_table : all_below 14 (λ f. 2 ^ f % 2 ^ 16 == 2 ^ f) ≡ true
unfolding all_below
no_overflow_table = refl

no_overflow : (f : ℕ) → f < 14 → 2 ^ f % 2 ^ 16 ≡ 2 ^ f
no_overflow f h = (==_iff _ _).0 (all_below_sound 14 _ no_overflow_table f h)

-- What the rule asks for before its predicates: each text field of its `all` has a text.
abbrev pub has_text : DiscoveredDevice → MatchField → Bool
has_text d field = not (is_text_field field) || populated d field

required_fields-has_text :
    (d : DiscoveredDevice) (required : ℕ) (ps : List CompiledPredicate)
    → (bit_and (required_fields required ps) (populated_text_fields d)
        == required_fields required ps)
      ≡ (bit_and required (populated_text_fields d) == required
          && all (λ p. has_text d p.predicate.field) ps)
unfolding required_fields is_text_field
required_fields-has_text d required [] = ground arith
required_fields-has_text d required (p ∷ ps) =
    let field = p.predicate.field in
    split_if (is_text_field field)
      (λ e.
        let low : 5 ≤ field = ground arith in
        let high : field ≤ 13 = ground arith in
        rw
          (
            e,
            no_overflow field (omega arith),
            required_fields-has_text d (bit_or required (2 ^ field)) ps,
            add_digit required (populated_text_fields d) field,
            populated_text_fields-populated d field low high,
          )
          (ground arith))
      λ e. rw (e, required_fields-has_text d required ps) refl

-- The test of `Classify` that comes before a rule's predicates
pub required-has_text :
    (d : DiscoveredDevice) (ps : List CompiledPredicate)
    → (bit_and (required_fields 0 ps) (populated_text_fields d) == required_fields 0 ps)
      ≡ all (λ p. has_text d p.predicate.field) ps
required-has_text d ps =
    required_fields-has_text d 0 ps
    ∙ rw (and_of_subset 0 (populated_text_fields d) (λ j t. ground (arith, test_bit-zero j)))
        (ground arith)
