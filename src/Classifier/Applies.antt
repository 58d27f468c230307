-- ===== src/Classifier/Applies.antt =====
-- When a rule applies to a device, and that the tests of `Classify` decide it.
use omnidiscover.Prelude.{
  ℕ, ◌<◌, ◌≡◌, refl, ap, ◌∙◌, Bool, true, false, not, ◌&&◌, ◌||◌, List, [], ◌∷◌, ltb, ◌==◌, ==_iff,
  if◌then◌else◌, length, all, any, All, bit_and, arith,
}
use omnidiscover.Prelude.Bits.{all_below, all_below_sound}
use omnidiscover.Prelude.Digits.{test_bit, test_bit-and, eq_of_bits, bit_and-le}
use omnidiscover.Go.{ret}
use omnidiscover.Protocol.{protocols_all}
use omnidiscover.Model.{DiscoveredDevice}
use omnidiscover.Classifier.Rule.{
  match_exact, match_regex, match_protocol, match_mac_prefix, match_ip_prefix, match_capability_all,
  invalid_op, MatchOp, Predicate, Rule, Regexp, CompiledPredicate, CompiledRule,
}
use omnidiscover.Classifier.Match.Holds.{
  holds, holds_op, IsMac, IsReady, IsCompiled, all_predicates-holds, any_predicates-holds,
}
use omnidiscover.Classifier.Match.{populated_text_fields}
use omnidiscover.Classifier.Match.Populated.{has_text, required-has_text}
use omnidiscover.Classifier.Compile.{is_protocol_op, possible}
use omnidiscover.Classifier.Compile.Ready.{IsPredicate, IsRule, From}
use omnidiscover.Classifier.Run.{rule_matches}

-- A rule applies if all of its `all` hold, none of its `none`, and one of its `any`, if it has some,
-- and if there is a text for each text field of its `all`.
unfoldable pub applies : Regexp → Rule → DiscoveredDevice → Bool
applies rx r d =
    all (λ (p : Predicate). has_text d p.field) r.all
    && (all (λ p. holds rx p d) r.all
        && (not (any (λ p. holds rx p d) r.none)
            && (length r.any == 0 || any (λ p. holds rx p d) r.any)))

nonempty_any {ℓ} : {A : Type ℓ} (xs : List A) → ltb 0 (length xs) ≡ any (λ _. true) xs
nonempty_any [] = refl
nonempty_any (x ∷ xs) = ground arith

length_any {ℓ} : {A : Type ℓ} (xs : List A) → (length xs == 0) ≡ not (any (λ _. true) xs)
length_any [] = refl
length_any (x ∷ xs) = ground arith

in_turn :
    (a b c e f : Bool)
    → (if not a
        then ret false
        else (if not b
            then ret false
            else (if c then ret false else (if e then ret f else ret true))))
      ≡ ret (a && (b && (not c && (not e || f))))
in_turn true true true e f = refl
in_turn true true false true f = refl
in_turn true true false false f = refl
in_turn true false c e f = refl
in_turn false b c e f = refl

known_table : all_below 256 (λ p. not (bit_and p 240 == 0) || bit_and p protocols_all == p) ≡ true
unfolding all_below
known_table = refl

known_protocols : (p : ℕ) → p < 256 → bit_and p 240 ≡ 0 → bit_and p protocols_all ≡ p
known_protocols p lt h =
    (==_iff _ _).0 (by_table _ _ (all_below_sound 256 _ known_table p lt) ((==_iff _ _).1 h))
  where
    by_table : (a b : Bool) → (not a || b) ≡ true → a ≡ true → b ≡ true
    by_table a b t e = ground arith

-- Protocols that no rule can name do not matter.
mask_known :
    (s p : ℕ) → bit_and p protocols_all ≡ p → bit_and (bit_and s protocols_all) p ≡ bit_and s p
mask_known s p h =
    eq_of_bits s _ _
      (omega (arith, bit_and-le (bit_and s protocols_all) p, bit_and-le s protocols_all))
      (bit_and-le s p)
      λ j.
        test_bit-and j (bit_and s protocols_all) p
        ∙ ground (
          arith,
          test_bit-and j s protocols_all,
          test_bit-and j s p,
          test_bit-and j p protocols_all,
          ap (test_bit j) h,
        )

in_range :
    (ps : List Predicate)
    → All IsPredicate ps
    → all (λ (p : Predicate). ltb p.protocol 256) ps ≡ true
in_range [] a = refl
in_range (p ∷ ps) a = ground (arith, in_range ps a.1, a.0.protocol)

second : (a b c : Bool) → (a && (b && c)) ≡ true → b ≡ true
second a b c h = ground arith

module _ (rx : Regexp) (d : DiscoveredDevice) (macs : All IsMac d.observed_macs) where
  pub rule_matches-applies :
      (i : ℕ) (r : Rule) (cr : CompiledRule)
      → From i r cr
      → rule_matches rx d (populated_text_fields d) cr ≡ ret (applies rx r d)
  unfolding rule_matches applies
  rule_matches-applies i r cr f =
      rw
        (
          f.required,
          required-has_text d cr.all,
          f.all_of.every (λ p. has_text d p.field),
          all_predicates-holds rx d macs cr.all f.all_of.ready,
          any_predicates-holds rx d macs cr.none f.none_of.ready,
          any_predicates-holds rx d macs cr.any f.any_of.ready,
          f.all_of.every (λ p. holds rx p d),
          f.none_of.some_of (λ p. holds rx p d),
          f.any_of.some_of (λ p. holds rx p d),
          nonempty_any cr.any,
          f.any_of.some_of (λ _. true),
          length_any r.any,
        )
        (in_turn (all (λ (p : Predicate). has_text d p.field) r.all) (all (λ p. holds rx p d) r.all)
          (any (λ p. holds rx p d) r.none) (any (λ _. true) r.any) (any (λ p. holds rx p d) r.any))

  not_excluded :
      (p : CompiledPredicate) (op : MatchOp)
      → IsReady p op
      → p.predicate.protocol < 256
      → holds_op rx p.predicate op d ≡ true
      → (is_protocol_op op && bit_and (bit_and d.protocols protocols_all) p.predicate.protocol == 0)
        ≡ false
  unfolding IsReady holds_op
  not_excluded p match_protocol ready w h =
      let known = known_protocols p.predicate.protocol w ready in
      rw (mask_known d.protocols p.predicate.protocol known) (ground arith)
  not_excluded p match_exact ready w h = refl
  not_excluded p match_regex ready w h = refl
  not_excluded p match_mac_prefix ready w h = refl
  not_excluded p match_ip_prefix ready w h = refl
  not_excluded p match_capability_all ready w h = refl
  not_excluded p (invalid_op n) ready w h = refl

  -- A rule that applies is possible: its predicates on protocols speak of the known ones only.
  holds-possible :
      (ps : List CompiledPredicate)
      → All IsCompiled ps
      → all (λ (p : CompiledPredicate). ltb p.predicate.protocol 256) ps ≡ true
      → all (λ (p : CompiledPredicate). holds rx p.predicate d) ps ≡ true
      → possible (bit_and d.protocols protocols_all) ps ≡ true
  unfolding possible holds
  holds-possible [] c w h = refl
  holds-possible (p ∷ ps) c w h =
      let this : holds rx p.predicate d ≡ true = ground arith in
      let rest = holds-possible ps c.1 (ground arith) (ground arith) in
      rw (not_excluded p p.predicate.op c.0 (ground arith) this) rest

  pub applies-possible :
      (i : ℕ) (r : Rule) (cr : CompiledRule)
      → IsRule r
      → From i r cr
      → applies rx r d ≡ true
      → possible (bit_and d.protocols protocols_all) cr.all ≡ true
  unfolding applies
  applies-possible i r cr w f h =
      holds-possible cr.all f.all_of.ready
        (f.all_of.every (λ p. ltb p.protocol 256) ∙ in_range r.all w.all_of)
        (f.all_of.every (λ p. holds rx p d) ∙ second _ _ _ h)
