-- ===== src/Classifier/Best.antt =====
-- What a classifier does for its rules, as a search for the best of them.
use omnidiscover.Prelude.{
  ℕ, ◌+◌, ◌≤◌, ◌≡◌, ◌≢◌, refl, sym, ap, ◌∙◌, ◌⊎◌, inl, inr, Bool, true, false, ◌&&◌, ◌||◌, List, [],
  ◌∷◌, Option, none, some, ltb, ◌==◌, split_if, split_eq, ltb→le, length, All, All-mono, bit_and,
  Bytes, arith,
}
use omnidiscover.Prelude.Int.{ltb_ℤ, eqb_ℤ}
use omnidiscover.Prelude.Digits.{bit_and-le_right}
use omnidiscover.Go.{Go, ret, ◌>>=◌, index}
use omnidiscover.Go.Ensures.{All-index}
use omnidiscover.Go.Sort.{
  stable_sort, IsWeakOrder, InOrder-stable_sort, length-stable_sort, All-stable_sort,
  of_stable_sort,
}
use omnidiscover.Protocol.{ProtocolSet, protocols_all}
use omnidiscover.Model.{DiscoveredDevice}
use omnidiscover.Classifier.Rule.{Rule, Regexp, CompiledRule, Classifier}
use omnidiscover.Classifier.Match.Holds.{IsMac}
use omnidiscover.Classifier.Match.{populated_text_fields}
use omnidiscover.Classifier.Compile.{
  passed, compile_rules, before, possible, compile_classifier, candidate_masks, max_classification,
}
use omnidiscover.Classifier.Run.First.{first-none, first-All, first-true, first-InOrder}
use omnidiscover.Classifier.Applies.{applies, rule_matches-applies, applies-possible}
use omnidiscover.Classifier.Compile.Ready.{
  IsRule, From, Origin, Outcome, compile_rules-Outcome, >>=-eq-passed,
}
use omnidiscover.Classifier.Run.{rule_matches, words_loop, names_of, classify}
use omnidiscover.Classifier.Run.Words.{first}
use omnidiscover.Classifier.Run.Masks.{mask_of, candidate_masks-mask, words_loop-possible}

abbrev predicates : Rule → ℕ
predicates r = length r.all + length r.any + length r.none

-- Rule r at place i comes before rule s at place j.
unfoldable pub comes_before : ℕ → Rule → ℕ → Rule → Bool
comes_before i r j s =
    ltb_ℤ s.priority r.priority
    || (eqb_ℤ r.priority s.priority
        && (ltb (predicates s) (predicates r) || (predicates r == predicates s && ltb i j)))

-- The class and the name are those of the first rule that applies; without one, none applies.
abbrev pub Best : Regexp → DiscoveredDevice → List Rule → Option (Bytes × Bytes) → Type 0
Best rx d rules none = (j : ℕ) (s : Rule) → index rules j ≡ ret s → applies rx s d ≡ false
Best rx d rules (some (class, name)) =
    (i : ℕ) × (r : Rule) × (index rules i ≡ ret r)
    × (applies rx r d ≡ true)
    × (class ≡ r.class)
    × (name ≡ r.name)
    × ((j : ℕ) (s : Rule)
        → index rules j ≡ ret s
        → applies rx s d ≡ true
        → (j ≡ i) ⊎ (comes_before i r j s ≡ true))

before_asym : (a b : CompiledRule) → before a b ≡ true → before b a ≡ false
unfolding before
before_asym a b h = ground arith

before_trans : (a b c : CompiledRule) → before b a ≡ false → before c b ≡ false → before c a ≡ false
unfolding before
before_trans a b c h k = ground arith

before-IsWeakOrder : IsWeakOrder before
before-IsWeakOrder = record { asymmetric = before_asym; transitive = before_trans }

-- Rules at different places are never equal in the order.
before_total :
    (i j : ℕ) (r s : Rule) (a b : CompiledRule)
    → From i r a
    → From j s b
    → i ≢ j
    → before b a ≡ false
    → comes_before i r j s ≡ true
unfolding before comes_before
before_total i j r s a b f g apart h =
    ground (arith, f.priority, f.specificity, f.order, g.priority, g.specificity, g.order)

later :
    (i j : ℕ) (r s : Rule) (a b : CompiledRule)
    → From (0 + i) r a
    → From (0 + j) s b
    → (b ≡ a) ⊎ (before b a ≡ false)
    → (j ≡ i) ⊎ (comes_before i r j s ≡ true)
later i j r s a b f g (inl same) =
    let orders : b.order ≡ a.order = ap (λ (c : CompiledRule). c.order) same in
    inl (omega (arith, f.order, g.order, orders))
later i j r s a b f g (inr h) =
    let zero_i : 0 + i ≡ i = omega arith in
    let zero_j : 0 + j ≡ j = omega arith in
    split_eq i j (λ _ same. inl (sym same))
      λ _ apart. inr (before_total i j r s a b (rw zero_i at f) (rw zero_j at g) apart h)

-- What a run of the tests on a rule says
verdict : Go Bool → Bool
verdict (ret b) = b
verdict _ = false

verdict-ret : {m : Go Bool} {b : Bool} → m ≡ ret b → m ≡ ret (verdict m)
unfolding verdict
verdict-ret h = rw h

first-cong {ℓ} :
    {A : Type ℓ} (p m : A → Bool) (xs : List A)
    → All (λ x. m x ≡ true → p x ≡ true) xs
    → first (λ x. p x && m x) xs ≡ first m xs
unfolding first
first-cong p m [] h = refl
first-cong p m (x ∷ xs) h =
    let rest = first-cong p m xs h.1 in
    split_if (m x) (λ e. rw (e, h.0 e)) λ e. rw (e, and_false (p x), rest)
  where
    and_false : (b : Bool) → (b && false) ≡ false
    and_false b = ground arith

module _ (rx : Regexp) (rules : List Rule) (d : DiscoveredDevice) (rules_ok : All IsRule rules)
    (macs : All IsMac d.observed_macs) (crs : List CompiledRule)
    (outcome : Outcome rules 0 crs) where
  abbrev available : ℕ
  available = populated_text_fields d

  abbrev observed : ProtocolSet
  observed = bit_and d.protocols protocols_all

  abbrev matched : CompiledRule → Bool
  matched cr = verdict (rule_matches rx d available cr)

  matched-applies :
      (i : ℕ) (r : Rule) (cr : CompiledRule) → From i r cr → matched cr ≡ applies rx r d
  unfolding verdict
  matched-applies i r cr f = ap verdict (rule_matches-applies rx d macs i r cr f)

  sorted : List CompiledRule
  sorted = stable_sort before crs

  sorted-Origin : All (Origin rules 0) sorted
  unfolding sorted
  sorted-Origin = All-stable_sort before (Origin rules 0) crs outcome.origins

  sorted-decided : All (λ cr. rule_matches rx d available cr ≡ ret (matched cr)) sorted
  sorted-decided =
      All-mono (Origin rules 0) (λ cr. rule_matches rx d available cr ≡ ret (matched cr))
        (λ cr o. verdict-ret (rule_matches-applies rx d macs (0 + o.place) o.rule cr o.from)) sorted
        sorted-Origin

  sorted-possible : All (λ cr. matched cr ≡ true → possible observed cr.all ≡ true) sorted
  sorted-possible =
      All-mono (Origin rules 0) (λ cr. matched cr ≡ true → possible observed cr.all ≡ true)
        (λ cr o t.
          applies-possible rx d macs (0 + o.place) o.rule cr
            (All-index IsRule rules o.place rules_ok o.found) o.from
            (sym (matched-applies (0 + o.place) o.rule cr o.from) ∙ t))
        sorted sorted-Origin

  first-Best : (o : Option CompiledRule) → first matched sorted ≡ o → Best rx d rules (names_of o)
  first-Best none h = λ j s found.
      let (cs, at_j, f) = outcome.compiled_at j s found in
      let no_match =
        of_stable_sort before (λ cr. matched cr ≡ false) crs
          (unfold sorted in first-none matched sorted h) in
      sym (matched-applies (0 + j) s cs f)
      ∙ All-index (λ cr. matched cr ≡ false) crs j no_match at_j
  first-Best (some cr) h = (
    o.place,
    o.rule,
    o.found,
    sym (matched-applies (0 + o.place) o.rule cr o.from) ∙ first-true matched sorted h,
    o.from.class,
    o.from.name,
    λ j s found t.
        let (cs, at_j, f) = outcome.compiled_at j s found in
        later o.place j o.rule s cr cs o.from f
          (All-index Beaten crs j not_before at_j (matched-applies (0 + j) s cs f ∙ t)),
  )
    where
      o : Origin rules 0 cr
      o = first-All matched (Origin rules 0) sorted sorted-Origin h

      Beaten : CompiledRule → Type 0
      Beaten c = matched c ≡ true → (c ≡ cr) ⊎ (before c cr ≡ false)

      not_before : All Beaten crs
      not_before = of_stable_sort before Beaten crs (
          unfold sorted in
          first-InOrder matched before sorted (InOrder-stable_sort before before-IsWeakOrder crs) h)

  length-sorted : length sorted ≡ length crs
  unfolding sorted
  length-sorted = length-stable_sort before crs

  search-Best :
      length rules ≤ 256
      → (o : Option (Bytes × Bytes)) × ((words_loop rx d available sorted 0
              (mask_of observed sorted)
            >>= λ found. ret (names_of found))
          ≡ ret o)
        × Best rx d rules o
  search-Best room =
      let few : length sorted ≤ 256 = omega (arith, length-sorted, outcome.same_length) in
      let found = words_loop-possible rx d available sorted matched observed sorted-decided few in
      let narrowed =
        first-cong (λ (cr : CompiledRule). possible observed cr.all) matched sorted
          sorted-possible in
      (
        names_of (first matched sorted),
        rw (found, narrowed) refl,
        first-Best (first matched sorted) refl,
      )

-- For a classifier that CompileClassifier made of rules, Classify returns for every device. Either no
-- rule applies and there is no result, or the result is the class and the name of a rule that applies
-- and comes before every other rule that does: by priority, then by the number of predicates, then by
-- its place. A rule applies if its predicates say so and there is a text for each text field of its
-- `all`. So the masks of candidates lose no rule.
pub classify-Best :
    (rx : Regexp) (rules : List Rule) (d : DiscoveredDevice) {c : Classifier}
    → All IsRule rules
    → All IsMac d.observed_macs
    → compile_classifier rx rules ≡ passed c
    → (o : Option (Bytes × Bytes)) × (classify rx (some c) (some d) ≡ ret o) × Best rx d rules o
unfolding compile_classifier classify
classify-Best rx rules d {c} rules_ok macs h =
    split_if (ltb max_classification (length rules)) (λ e. let bad = rw e at h in cc)
      λ e.
        let h' = rw e at h in
        let (crs, compiled, built) = >>=-eq-passed (compile_rules rx 0 rules 0) _ h' in
        let outcome = compile_rules-Outcome rx 0 rules 0 rules_ok compiled in
        let parts : c ≡ record {
          rules = stable_sort before crs;
          protocol_candidates = candidate_masks 16 0 (stable_sort before crs);
        } =
          cc in
        let observed = bit_and d.protocols protocols_all in
        let mask =
          candidate_masks-mask 16 observed 0 (stable_sort before crs)
            (omega (arith, bit_and-le_right d.protocols protocols_all)) in
        let from_zero : 0 + observed ≡ observed = omega arith in
        rw (parts, mask, from_zero)
          (unfold sorted in search-Best rx rules d rules_ok macs crs outcome (ltb→le _ _ e))
