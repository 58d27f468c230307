-- ===== src/Classifier/Compile/Accepts.antt =====
-- Which rules `CompileClassifier` accepts.
use omnidiscover.Prelude.{
  ℕ, suc, ◌+◌, ◌≤◌, ◌<◌, ◌≡◌, refl, sym, ◌∙◌, Bool, true, false, not, ◌&&◌, ◌||◌, List, [], ◌∷◌,
  Option, none, some, ltb, leb, ◌==◌, if◌then◌else◌, split_if, length, all, All, bit_and, arith,
}
use omnidiscover.Prelude.Bits.{all_below, all_below_sound}
use omnidiscover.Net.Prefix.{prefix_valid}
use omnidiscover.Classifier.Rule.{
  field_protocol, field_observed_mac, field_address, field_capabilities, is_text_field, MatchOp,
  match_exact, match_regex, match_protocol, match_mac_prefix, match_ip_prefix, match_capability_all,
  invalid_op, Predicate, Rule, Regexp,
}
use omnidiscover.Classifier.Compile.{
  max_classification, max_regex_rules, max_regex_pattern_size, Checked, passed, failed, ◌>>=◌,
  compile_op, compile_loop, compile_predicates, compile_rule, compile_rules, compile_classifier,
}
use omnidiscover.Classifier.Compile.Ready.{IsPredicate, IsRule}

-- A predicate that may stand in a rule, by its operation
unfoldable pub valid_op : Regexp → Predicate → MatchOp → Bool
valid_op rx p match_exact = is_text_field p.field
valid_op rx p match_regex =
    is_text_field p.field
    && (leb 1 (length p.pattern_text)
        && (leb (length p.pattern_text) max_regex_pattern_size && rx.compiles p.pattern_text))
valid_op rx p match_protocol = p.field == field_protocol && (leb 1 p.protocol && ltb p.protocol 16)
valid_op rx p match_mac_prefix = p.field == field_observed_mac && leb p.mac_prefix.bits 48
valid_op rx p match_ip_prefix = p.field == field_address && prefix_valid p.ip_prefix
valid_op rx p match_capability_all = p.field == field_capabilities && leb 1 p.capability
valid_op rx p (invalid_op n) = false

abbrev pub valid_predicate : Regexp → Predicate → Bool
valid_predicate rx p = valid_op rx p p.op

abbrev pub regex_count : MatchOp → ℕ
regex_count match_regex = 1
regex_count _ = 0

abbrev pub regexes : List Predicate → ℕ
regexes [] = 0
regexes (p ∷ ps) = regex_count p.op + regexes ps

abbrev pub valid_rule : Regexp → Rule → Bool
valid_rule rx r =
    leb 1 (length r.name)
    && (leb 1 (length r.class)
        && (all (valid_predicate rx) r.all
            && (all (valid_predicate rx) r.any && all (valid_predicate rx) r.none)))

abbrev pub rule_regexes : List Rule → ℕ
rule_regexes [] = 0
rule_regexes (r ∷ rs) = regexes r.all + regexes r.any + regexes r.none + rule_regexes rs

-- At most 256 rules, each valid, with at most 128 regular expressions together
abbrev pub valid_rules : Regexp → List Rule → Bool
valid_rules rx rules =
    leb (length rules) max_classification
    && (all (valid_rule rx) rules && leb (rule_regexes rules) max_regex_rules)

-- The count that a successful compilation hands on
abbrev count_of {ℓ} : {A : Type ℓ} → Checked (A × ℕ) → Option ℕ
count_of (passed (a, n)) = some n
count_of (failed e) = none

abbrev pub is_ok {ℓ} : {A : Type ℓ} → Checked A → Bool
is_ok (passed a) = true
is_ok (failed e) = false

-- What the count of a valid part is, from n on
abbrev counted : Bool → ℕ → ℕ → Option ℕ
counted valid n more = if valid && leb (n + more) max_regex_rules then some (n + more) else none

protocols_table : all_below 256 (λ p. not (bit_and p 240 == 0) || ltb p 16) ≡ true
unfolding all_below
protocols_table = refl

protocols_table_back : all_below 16 (λ p. bit_and p 240 == 0) ≡ true
unfolding all_below
protocols_table_back = refl

known_protocols : (p : ℕ) → p < 256 → (bit_and p 240 == 0) ≡ ltb p 16
known_protocols p h =
    split_if (ltb p 16) (λ e. all_below_sound 16 _ protocols_table_back p (ground arith) ∙ sym e)
      λ e. let row = all_below_sound 256 _ protocols_table p h in rw e (ground arith)

compile_op-counted :
    (rx : Regexp) (p : Predicate) (op : MatchOp) (n : ℕ)
    → p.protocol < 256
    → n ≤ max_regex_rules
    → count_of (compile_op rx p op n) ≡ counted (valid_op rx p op) n (regex_count op)
unfolding compile_op valid_op
compile_op-counted rx p match_exact n w h = ground arith
compile_op-counted rx p match_regex n w h = ground arith
compile_op-counted rx p match_protocol n w h = ground (arith, known_protocols p.protocol w)
compile_op-counted rx p match_mac_prefix n w h = ground arith
compile_op-counted rx p match_ip_prefix n w h = ground arith
compile_op-counted rx p match_capability_all n w h = ground arith
compile_op-counted rx p (invalid_op k) n w h = ground arith

-- Two parts one behind the other
then_counted {ℓ κ} :
    {A : Type ℓ} {B : Type κ} (m : Checked (A × ℕ)) (f : A × ℕ → Checked (B × ℕ)) (v w : Bool)
    (n x y : ℕ)
    → count_of m ≡ counted v n x
    → ((a : A) (k : ℕ) → k ≤ max_regex_rules → count_of (f (a, k)) ≡ counted w k y)
    → count_of (m >>= f) ≡ counted (v && w) n (x + y)
then_counted (failed e) f v w n x y h k = ground arith
then_counted (passed (a, c)) f v w n x y h k = ground (arith, k a c)

count_of-map {ℓ κ} :
    {A : Type ℓ} {B : Type κ} (m : Checked (A × ℕ)) (g : A → B)
    → count_of (m >>= λ (a, n). passed (g a, n)) ≡ count_of m
count_of-map (passed (a, n)) g = refl
count_of-map (failed e) g = refl

compile_loop-counted :
    (rx : Regexp) (ps : List Predicate) (n : ℕ)
    → All IsPredicate ps
    → n ≤ max_regex_rules
    → count_of (compile_loop rx ps n) ≡ counted (all (valid_predicate rx) ps) n (regexes ps)
unfolding compile_loop
compile_loop-counted rx [] n w h = ground arith
compile_loop-counted rx (p ∷ ps) n w h =
    then_counted (compile_op rx p p.op n) _ (valid_predicate rx p) (all (valid_predicate rx) ps) n
      (regex_count p.op) (regexes ps) (compile_op-counted rx p p.op n w.0.protocol h)
      λ cp k le. count_of-map (compile_loop rx ps k) _ ∙ compile_loop-counted rx ps k w.1 le

compile_predicates-counted :
    (rx : Regexp) (ps : List Predicate) (n : ℕ)
    → All IsPredicate ps
    → n ≤ max_regex_rules
    → count_of (compile_predicates rx ps n) ≡ counted (all (valid_predicate rx) ps) n (regexes ps)
unfolding compile_predicates
compile_predicates-counted rx ps n w h =
    count_of-map (compile_loop rx ps n) _ ∙ compile_loop-counted rx ps n w h

compile_rule-counted :
    (rx : Regexp) (i : ℕ) (r : Rule) (n : ℕ)
    → IsRule r
    → n ≤ max_regex_rules
    → count_of (compile_rule rx i r n)
      ≡ counted (valid_rule rx r) n (regexes r.all + regexes r.any + regexes r.none)
unfolding compile_rule
compile_rule-counted rx i r n w h =
    split_if (length r.name == 0 || length r.class == 0) (λ e. rw e (ground arith))
      λ e. rw e (
        then_counted (compile_predicates rx r.all n) _ (all (valid_predicate rx) r.all)
          (all (valid_predicate rx) r.any && all (valid_predicate rx) r.none) n (regexes r.all)
          (regexes r.any + regexes r.none) (compile_predicates-counted rx r.all n w.all_of h)
          (λ all_of k le.
            then_counted (compile_predicates rx r.any k) _ (all (valid_predicate rx) r.any)
              (all (valid_predicate rx) r.none) k (regexes r.any) (regexes r.none)
              (compile_predicates-counted rx r.any k w.any_of le)
              λ any_of k' le'.
                count_of-map (compile_predicates rx r.none k') _
                ∙ compile_predicates-counted rx r.none k' w.none_of le')
        ∙ ground arith)

-- Whether the rules pass, from n expressions on
is_ok-bind {ℓ κ} :
    {A : Type ℓ} {B : Type κ} (m : Checked (A × ℕ)) (f : A × ℕ → Checked B) (v w : Bool) (n x y : ℕ)
    → count_of m ≡ counted v n x
    → ((a : A) (k : ℕ)
        → k ≤ max_regex_rules
        → is_ok (f (a, k)) ≡ (w && leb (k + y) max_regex_rules))
    → is_ok (m >>= f) ≡ (v && w && leb (n + (x + y)) max_regex_rules)
is_ok-bind (failed e) f v w n x y h k = ground arith
is_ok-bind (passed (a, c)) f v w n x y h k = ground (arith, k a c)

is_ok-map {ℓ κ} :
    {A : Type ℓ} {B : Type κ} (m : Checked A) (g : A → B)
    → is_ok (m >>= λ a. passed (g a)) ≡ is_ok m
is_ok-map (passed a) g = refl
is_ok-map (failed e) g = refl

compile_rules-valid :
    (rx : Regexp) (i : ℕ) (rules : List Rule) (n : ℕ)
    → All IsRule rules
    → n ≤ max_regex_rules
    → is_ok (compile_rules rx i rules n)
      ≡ (all (valid_rule rx) rules && leb (n + rule_regexes rules) max_regex_rules)
unfolding compile_rules
compile_rules-valid rx i [] n w h = ground arith
compile_rules-valid rx i (r ∷ rs) n w h =
    is_ok-bind (compile_rule rx i r n) _ (valid_rule rx r) (all (valid_rule rx) rs) n
      (regexes r.all + regexes r.any + regexes r.none) (rule_regexes rs)
      (compile_rule-counted rx i r n w.0 h)
      (λ cr k le.
        is_ok-map (compile_rules rx (suc i) rs k) _ ∙ compile_rules-valid rx (suc i) rs k w.1 le)

-- CompileClassifier makes a classifier of exactly the valid rules: at most 256, each with a name, a
-- class and predicates whose operation fits their field and whose value is in range, and with at most
-- 128 regular expressions together. Of all others it makes an error.
pub compile_classifier-valid :
    (rx : Regexp) (rules : List Rule)
    → All IsRule rules
    → is_ok (compile_classifier rx rules) ≡ valid_rules rx rules
unfolding compile_classifier
compile_classifier-valid rx rules w =
    split_if (ltb max_classification (length rules)) (λ e. rw e (ground arith))
      λ e.
        let valid = compile_rules-valid rx 0 rules 0 w (omega arith) in
        rw e (is_ok-map (compile_rules rx 0 rules 0) _ ∙ ground (arith, valid))
