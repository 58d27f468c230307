-- ===== src/Classifier/Compile.antt =====
-- classifier.go: `CompileClassifier` and `compilePredicates`. What an error says is its constructor.
pub mod Ready
pub mod Accepts
use omnidiscover.Prelude.{
  ℕ, zero, suc, ◌+◌, ◌-◌, ◌/◌, ◌%◌, ◌^◌, Bool, true, false, not, ◌&&◌, ◌||◌, List, [], ◌∷◌, Option,
  none, some, ltb, leb, ◌==◌, if◌then◌else◌, length, get_or, set, bit_and, bit_or, Bytes,
}
use omnidiscover.Prelude.Int.{ltb_ℤ, eqb_ℤ}
use omnidiscover.Go.Sort.{stable_sort}
use omnidiscover.Protocol.{ProtocolSet, protocols_all}
use omnidiscover.Net.Prefix.{prefix_valid}
use omnidiscover.Classifier.Rule.{
  field_protocol, field_observed_mac, field_address, field_capabilities, is_text_field, MatchOp,
  match_exact, match_regex, match_protocol, match_mac_prefix, match_ip_prefix, match_capability_all,
  invalid_op, Predicate, Rule, Regexp, CompiledPredicate, CompiledRule, Classifier,
}

abbrev pub max_classification : ℕ
max_classification = 256

abbrev pub max_regex_rules : ℕ
max_regex_rules = 128

abbrev pub max_regex_pattern_size : ℕ
max_regex_pattern_size = 1024

pub data CompileError : Type 0 where
  too_many_rules : CompileError
  no_name_or_class : ℕ → CompileError
  not_a_text_field regex_length too_many_regexes bad_regex not_the_protocol_field : CompileError
  invalid_protocol_set not_the_mac_field mac_prefix_too_long not_the_address_field : CompileError
  invalid_ip_prefix not_the_capabilities_field empty_capability_mask invalid_operation :
      CompileError

pub data Checked {ℓ} (A : Type ℓ) : Type ℓ where
  failed : CompileError → Checked A
  passed : A → Checked A

infixl 5 ◌>>=◌
abbrev pub ◌>>=◌ {ℓ κ} : {A : Type ℓ} {B : Type κ} → Checked A → (A → Checked B) → Checked B
failed why >>= next = failed why
passed x >>= next = next x

-- The checks of `compilePredicates` for one operation, and the expressions counted so far.
unfoldable pub compile_op : Regexp → Predicate → MatchOp → ℕ → Checked (CompiledPredicate × ℕ)
unfolding is_text_field
compile_op rx p match_exact count =
    if not (is_text_field p.field)
    then failed not_a_text_field
    else passed (record { predicate = p; exact = p.value; re = none }, count)
compile_op rx p match_regex count =
    if not (is_text_field p.field)
    then failed not_a_text_field
    else if length p.pattern_text == 0 || ltb max_regex_pattern_size (length p.pattern_text)
    then failed regex_length
    else if ltb max_regex_rules (count + 1)
    then failed too_many_regexes
    else if not (rx.compiles p.pattern_text)
    then failed bad_regex
    else passed (record { predicate = p; exact = []; re = some p.pattern_text }, count + 1)
compile_op rx p match_protocol count =
    if not (p.field == field_protocol)
    then failed not_the_protocol_field
    else if p.protocol == 0 || not (bit_and p.protocol (255 - protocols_all) == 0)
    then failed invalid_protocol_set
    else passed (record { predicate = p; exact = []; re = none }, count)
compile_op rx p match_mac_prefix count =
    if not (p.field == field_observed_mac)
    then failed not_the_mac_field
    else if ltb 48 p.mac_prefix.bits
    then failed mac_prefix_too_long
    else passed (record { predicate = p; exact = []; re = none }, count)
compile_op rx p match_ip_prefix count =
    if not (p.field == field_address)
    then failed not_the_address_field
    else if not (prefix_valid p.ip_prefix)
    then failed invalid_ip_prefix
    else passed (record { predicate = p; exact = []; re = none }, count)
compile_op rx p match_capability_all count =
    if not (p.field == field_capabilities)
    then failed not_the_capabilities_field
    else if p.capability == 0
    then failed empty_capability_mask
    else passed (record { predicate = p; exact = []; re = none }, count)
compile_op rx p (invalid_op n) count = failed invalid_operation

-- `predicateCost`
unfoldable pub predicate_cost : MatchOp → ℕ
predicate_cost match_protocol = 0
predicate_cost match_capability_all = 0
predicate_cost match_exact = 1
predicate_cost match_mac_prefix = 2
predicate_cost match_ip_prefix = 2
predicate_cost match_regex = 3
predicate_cost (invalid_op n) = 4

-- The loop of `compilePredicates`
unfoldable pub compile_loop : Regexp → List Predicate → ℕ → Checked (List CompiledPredicate × ℕ)
compile_loop rx [] count = passed ([], count)
compile_loop rx (p ∷ ps) count = do
  (cp, count') ← compile_op rx p p.op count
  (rest, count'') ← compile_loop rx ps count'
  passed (cp ∷ rest, count'')

abbrev pub cheaper : CompiledPredicate → CompiledPredicate → Bool
cheaper a b = ltb (predicate_cost a.predicate.op) (predicate_cost b.predicate.op)

-- `compilePredicates`
unfoldable pub compile_predicates :
    Regexp → List Predicate → ℕ → Checked (List CompiledPredicate × ℕ)
compile_predicates rx ps count = do
  (out, count') ← compile_loop rx ps count
  passed (stable_sort cheaper out, count')

-- The text fields that a rule's `all` needs, as a `uint16`
unfoldable pub required_fields : ℕ → List CompiledPredicate → ℕ
required_fields required [] = required
required_fields required (p ∷ ps) =
    required_fields
      (if is_text_field p.predicate.field
        then bit_or required (2 ^ p.predicate.field % 2 ^ 16)
        else required)
      ps

-- One round of the loop of `CompileClassifier`
unfoldable pub compile_rule : Regexp → ℕ → Rule → ℕ → Checked (CompiledRule × ℕ)
compile_rule rx i r count =
    if length r.name == 0 || length r.class == 0 then failed (no_name_or_class i) else do
      (all_of, count1) ← compile_predicates rx r.all count
      (any_of, count2) ← compile_predicates rx r.any count1
      (none_of, count3) ← compile_predicates rx r.none count2
      passed (
        record {
          name = r.name;
          class = r.class;
          priority = r.priority;
          specificity = length r.all + length r.any + length r.none;
          order = i;
          all = all_of;
          any = any_of;
          none = none_of;
          required = required_fields 0 all_of;
        },
        count3,
      )

unfoldable pub compile_rules : Regexp → ℕ → List Rule → ℕ → Checked (List CompiledRule)
compile_rules rx i [] count = passed []
compile_rules rx i (r ∷ rs) count = do
  (cr, count') ← compile_rule rx i r count
  rest ← compile_rules rx (suc i) rs count'
  passed (cr ∷ rest)

-- The order of the rules: the function that `sort.SliceStable` is given.
unfoldable pub before : CompiledRule → CompiledRule → Bool
before a b =
    if not (eqb_ℤ a.priority b.priority)
    then ltb_ℤ b.priority a.priority
    else if not (a.specificity == b.specificity)
    then ltb b.specificity a.specificity
    else ltb a.order b.order

abbrev pub is_protocol_op : MatchOp → Bool
is_protocol_op match_protocol = true
is_protocol_op _ = false

-- Whether a rule can match a device that speaks just these protocols.
unfoldable pub possible : ProtocolSet → List CompiledPredicate → Bool
possible observed [] = true
possible observed (p ∷ ps) =
    if is_protocol_op p.predicate.op && bit_and observed p.predicate.protocol == 0
    then false
    else possible observed ps

-- The masks for one set of protocols, from rule i on. There are at most 256 rules, so `i>>6` is one
-- of the four words.
unfoldable pub mark_rules : ProtocolSet → ℕ → List CompiledRule → List ℕ → List ℕ
mark_rules observed i [] words = words
mark_rules observed i (r ∷ rs) words = mark_rules observed (suc i) rs (
    if possible observed r.all
    then set words (i / 64) (bit_or (get_or words (i / 64) 0) (2 ^ (i % 64)))
    else words)

unfoldable pub candidate_masks : ℕ → ProtocolSet → List CompiledRule → List (List ℕ)
candidate_masks zero observed rules = []
candidate_masks (suc n) observed rules =
    mark_rules observed 0 rules (0 ∷ 0 ∷ 0 ∷ 0 ∷ []) ∷ candidate_masks n (suc observed) rules

-- `CompileClassifier`
unfoldable pub compile_classifier : Regexp → List Rule → Checked Classifier
compile_classifier rx rules =
    if ltb max_classification (length rules) then failed too_many_rules else do
      compiled ← compile_rules rx 0 rules 0
      let sorted = stable_sort before compiled
      passed (record { rules = sorted; protocol_candidates = candidate_masks 16 0 sorted })
