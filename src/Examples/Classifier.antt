-- ===== src/Examples/Classifier.antt =====
-- Runs of the classifier, the filter and the lookup in a TXT record on small inputs, and of the
-- theorems at them.
use omnidiscover.Prelude.{ℕ, ◌≡◌, refl, List, [], ◌∷◌, true, Option, some, arith, All, Bytes, equal}
use omnidiscover.Prelude.Int.{pos, negsuc}
use omnidiscover.Go.{ret, loop, index, slice}
use omnidiscover.Go.Ensures.{Ensures}
use omnidiscover.Net.{zero_mac}
use omnidiscover.Net.Prefix.{no_prefix}
use omnidiscover.Model.{DiscoveredDevice, Service, no_service, no_uptime, no_device_key, TextField}
use omnidiscover.Classifier.Rule.{
  field_protocol, field_system_name, match_exact, match_protocol, MatchOp, Predicate, Rule, Regexp,
  Classifier,
}
use omnidiscover.Classifier.Match.Holds.{IsMac}
use omnidiscover.Classifier.Compile.{
  Checked, passed, failed, compile_classifier, compile_rules, compile_rule, compile_predicates,
  compile_loop, compile_op,
}
use omnidiscover.Classifier.Compile.Ready.{IsPredicate, IsRule}
use omnidiscover.Classifier.Compile.Accepts.{compile_classifier-valid, is_ok, valid_rules}
use omnidiscover.Classifier.Run.{classify}
use omnidiscover.Classifier.Best.{Best, classify-Best}
use omnidiscover.AndroidNsd.{txt_value}
use omnidiscover.AndroidNsd.Lookup.{Find, txt_value-Find}
use omnidiscover.Capture.Filter.{discovery_filter}
use omnidiscover.Capture.Filter.Program.{accepted, discovery_filter-accepted}

-- Expressions that are plain texts
abbrev plain : Regexp
plain = record { compiles = λ p. true; finds = λ p t. equal p t }

abbrev predicate : MatchOp → ℕ → Bytes → Predicate
predicate op field value = record {
  field = field;
  op = op;
  value = value;
  pattern_text = [];
  protocol = 1;
  mac_prefix = record { address = zero_mac; bits = 0 };
  ip_prefix = no_prefix;
  capability = 0;
  fold_ascii = true;
}

abbrev by_protocol : Rule
by_protocol = record {
  name = b'p' ∷ [];
  class = b's' ∷ [];
  priority = negsuc 0;
  all = predicate match_protocol field_protocol [] ∷ [];
  any = [];
  none = [];
}

abbrev by_name : Rule
by_name = record {
  name = b'n' ∷ [];
  class = b'r' ∷ [];
  priority = pos 3;
  all = predicate match_exact field_system_name (b'R' ∷ []) ∷ [];
  any = [];
  none = [];
}

abbrev two_rules : List Rule
two_rules = by_protocol ∷ by_name ∷ []

two_rules-IsRule : All IsRule two_rules
two_rules-IsRule =
    let mac : IsMac zero_mac = record {
      six = refl;
      bytes = (
        omega arith,
        (omega arith, (omega arith, (omega arith, (omega arith, (omega arith, tt))))),
      );
    } in
    let one : All IsPredicate by_protocol.all =
      (record { protocol = omega arith; address = mac }, tt) in
    let other : All IsPredicate by_name.all =
      (record { protocol = omega arith; address = mac }, tt) in
    (
      record { all_of = one; any_of = tt; none_of = tt },
      (record { all_of = other; any_of = tt; none_of = tt }, tt),
    )

abbrev classifier_of : Checked Classifier → Classifier
classifier_of (passed c) = c
classifier_of (failed e) = record { rules = []; protocol_candidates = [] }

abbrev no_text : TextField
no_text = record { values = []; canonical = 0 }

abbrev switch : DiscoveredDevice
switch = record {
  key = no_device_key;
  observed_macs = [];
  claimed_macs = [];
  addresses = [];
  system_name = record {
    values =
        record { value = b'r' ∷ []; protocols = 1; confidence = 9; first_seen = 1; last_seen = 2 }
        ∷ [];
    canonical = 0;
  };
  host_name = no_text;
  protocol_device_id = no_text;
  vendor = no_text;
  model = no_text;
  platform = no_text;
  software_version = no_text;
  uptime = no_uptime;
  capabilities = 4;
  services = [];
  protocols = 1;
  class = [];
  matched_rule = [];
  first_seen = 1;
  last_seen = 2;
}

two_rules-compile :
    compile_classifier plain two_rules ≡ passed (classifier_of (compile_classifier plain two_rules))
unfolding compile_classifier compile_rules compile_rule compile_predicates compile_loop compile_op
two_rules-compile = refl

classify-Best_example :
    (o : Option (Bytes × Bytes)) × (classify plain
        (some (classifier_of (compile_classifier plain two_rules)))
        (some switch)
      ≡ ret o)
    × Best plain switch two_rules o
classify-Best_example = classify-Best plain two_rules switch two_rules-IsRule tt two_rules-compile

compile_classifier-valid_example :
    is_ok (compile_classifier plain two_rules) ≡ valid_rules plain two_rules
compile_classifier-valid_example = compile_classifier-valid plain two_rules two_rules-IsRule

-- The TXT record `a=1` and `b`
abbrev printer : Service
printer = record no_service { txt = 3 ∷ b'a' ∷ b'=' ∷ b'1' ∷ 1 ∷ b'b' ∷ [] }

printer_a : txt_value equal (some printer) (b'a' ∷ []) ≡ ret (some (b'1' ∷ []))
unfolding txt_value loop index slice equal
printer_a = refl

printer_b : txt_value equal (some printer) (b'b' ∷ []) ≡ ret (some [])
unfolding txt_value loop index slice equal
printer_b = refl

txt_value-Find_example :
    Ensures (Find equal (b'a' ∷ []) printer.txt) (txt_value equal (some printer) (b'a' ∷ []))
txt_value-Find_example = txt_value-Find equal printer (b'a' ∷ [])

discovery_filter-accepted_example : accepted (discovery_filter 15 65535) ≡ true
discovery_filter-accepted_example = discovery_filter-accepted 15 65535 (omega arith)
