-- ===== src/Classifier/Compile/Ready.antt =====
-- What `CompileClassifier` makes of each rule, if it makes a classifier.
use omnidiscover.Prelude.{
  ℕ, zero, suc, ◌+◌, ◌≤◌, ◌<◌, ◌≡◌, refl, ap, ◌∙◌, Bool, ◌||◌, List, [], ◌∷◌, ◌==◌, split_if,
  length, map, all, any, All, arith,
}
use omnidiscover.Go.{ret, index}
use omnidiscover.Go.Sort.{stable_sort, all-stable_sort, any-stable_sort, All-stable_sort}
use omnidiscover.Classifier.Rule.{
  MatchOp, match_exact, match_regex, match_protocol, match_mac_prefix, match_ip_prefix,
  match_capability_all, invalid_op, Predicate, Rule, Regexp, CompiledPredicate, CompiledRule,
}
use omnidiscover.Classifier.Match.Holds.{IsMac, IsReady, IsCompiled}
use omnidiscover.Classifier.Compile.{
  Checked, passed, failed, ◌>>=◌, compile_op, compile_loop, cheaper, compile_predicates,
  required_fields, compile_rule, compile_rules,
}

-- A predicate whose values have their widths
pub record IsPredicate (p : Predicate) : Type 0 where
  pub protocol : p.protocol < 256
  pub address : IsMac p.mac_prefix.address

pub record IsRule (r : Rule) : Type 0 where
  pub all_of : All IsPredicate r.all
  pub any_of : All IsPredicate r.any
  pub none_of : All IsPredicate r.none

pub >>=-eq-passed {ℓ κ} :
    {A : Type ℓ} {B : Type κ} (m : Checked A) (f : A → Checked B) {b : B}
    → (m >>= f) ≡ passed b
    → (a : A) × (m ≡ passed a) × (f a ≡ passed b)
>>=-eq-passed (passed a) f h = (a, refl, h)
>>=-eq-passed (failed e) f h = cc

compile_op-IsReady :
    (rx : Regexp) (p : Predicate) (op : MatchOp) (count : ℕ) {cp : CompiledPredicate} {count' : ℕ}
    → IsMac p.mac_prefix.address
    → compile_op rx p op count ≡ passed (cp, count')
    → (cp.predicate ≡ p) × IsReady cp op
unfolding compile_op IsReady
compile_op-IsReady rx p match_exact count a h = (ground arith, ground arith)
compile_op-IsReady rx p match_regex count a h = (ground arith, ground arith)
compile_op-IsReady rx p match_protocol count a h = (ground arith, ground arith)
compile_op-IsReady rx p match_mac_prefix count {cp} a h =
    let same : cp.predicate ≡ p = ground arith in
    let few : p.mac_prefix.bits ≤ 48 = ground arith in (same, rw same (few, a))
compile_op-IsReady rx p match_ip_prefix count a h = (ground arith, tt)
compile_op-IsReady rx p match_capability_all count a h = (ground arith, tt)
compile_op-IsReady rx p (invalid_op n) count a h = cc

compile_loop-ready :
    (rx : Regexp) (ps : List Predicate) (count : ℕ) {cps : List CompiledPredicate} {count' : ℕ}
    → All IsPredicate ps
    → compile_loop rx ps count ≡ passed (cps, count')
    → All IsCompiled cps × (map (λ (cp : CompiledPredicate). cp.predicate) cps ≡ ps)
unfolding compile_loop
compile_loop-ready rx [] count {cps} a h = let done : cps ≡ [] = cc in rw done (tt, refl)
compile_loop-ready rx (p ∷ ps) count {cps} a h =
    let ((cp, count1), first, h1) = >>=-eq-passed (compile_op rx p p.op count) _ h in
    let ((rest, count2), others, h2) = >>=-eq-passed (compile_loop rx ps count1) _ h1 in
    let (same, ready) = compile_op-IsReady rx p p.op count a.0.address first in
    let (readies, sames) = compile_loop-ready rx ps count1 a.1 others in
    let parts : cps ≡ cp ∷ rest = cc in rw parts ((rw same ready, readies), rw (same, sames))

all-map {ℓ κ} :
    {A : Type ℓ} {B : Type κ} (f : A → B) (p : B → Bool) (xs : List A)
    → all (λ x. p (f x)) xs ≡ all p (map f xs)
all-map f p [] = refl
all-map f p (x ∷ xs) = rw (all-map f p xs)

any-map {ℓ κ} :
    {A : Type ℓ} {B : Type κ} (f : A → B) (p : B → Bool) (xs : List A)
    → any (λ x. p (f x)) xs ≡ any p (map f xs)
any-map f p [] = refl
any-map f p (x ∷ xs) = rw (any-map f p xs)

-- The compiled predicates are ready, and say together what the written ones say.
pub record Compiled (ps : List Predicate) (cps : List CompiledPredicate) : Type 0 where
  pub ready : All IsCompiled cps
  pub every :
      (h : Predicate → Bool) → all (λ (cp : CompiledPredicate). h cp.predicate) cps ≡ all h ps
  pub some_of :
      (h : Predicate → Bool) → any (λ (cp : CompiledPredicate). h cp.predicate) cps ≡ any h ps

compile_predicates-Compiled :
    (rx : Regexp) (ps : List Predicate) (count : ℕ) {cps : List CompiledPredicate} {count' : ℕ}
    → All IsPredicate ps
    → compile_predicates rx ps count ≡ passed (cps, count')
    → Compiled ps cps
unfolding compile_predicates
compile_predicates-Compiled rx ps count {cps} a h =
    let ((out, count1), compiled, h1) = >>=-eq-passed (compile_loop rx ps count) _ h in
    let (readies, sames) = compile_loop-ready rx ps count a compiled in
    let sorted : cps ≡ stable_sort cheaper out = cc in
    rw sorted (record {
      ready = All-stable_sort cheaper IsCompiled out readies;
      every = λ p.
          all-stable_sort cheaper (λ (cp : CompiledPredicate). p cp.predicate) out
          ∙ all-map (λ (cp : CompiledPredicate). cp.predicate) p out
          ∙ ap (all p) sames;
      some_of = λ p.
          any-stable_sort cheaper (λ (cp : CompiledPredicate). p cp.predicate) out
          ∙ any-map (λ (cp : CompiledPredicate). cp.predicate) p out
          ∙ ap (any p) sames;
    })

-- A compiled rule comes from the rule that was written at place i.
pub record From (i : ℕ) (r : Rule) (cr : CompiledRule) : Type 0 where
  pub name : cr.name ≡ r.name
  pub class : cr.class ≡ r.class
  pub priority : cr.priority ≡ r.priority
  pub specificity : cr.specificity ≡ length r.all + length r.any + length r.none
  pub order : cr.order ≡ i
  pub all_of : Compiled r.all cr.all
  pub any_of : Compiled r.any cr.any
  pub none_of : Compiled r.none cr.none
  pub required : cr.required ≡ required_fields 0 cr.all

compile_rule-From :
    (rx : Regexp) (i : ℕ) (r : Rule) (count : ℕ) {cr : CompiledRule} {count' : ℕ}
    → IsRule r
    → compile_rule rx i r count ≡ passed (cr, count')
    → From i r cr
unfolding compile_rule
compile_rule-From rx i r count {cr} w h =
    split_if (length r.name == 0 || length r.class == 0) (λ e. let bad = rw e at h in cc)
      λ e.
        let h0 = rw e at h in
        let ((all_of, count1), e1, h1) = >>=-eq-passed (compile_predicates rx r.all count) _ h0 in
        let ((any_of, count2), e2, h2) = >>=-eq-passed (compile_predicates rx r.any count1) _ h1 in
        let ((none_of, count3), e3, h3) =
          >>=-eq-passed (compile_predicates rx r.none count2) _ h2 in
        let built : cr ≡ record {
          name = r.name;
          class = r.class;
          priority = r.priority;
          specificity = length r.all + length r.any + length r.none;
          order = i;
          all = all_of;
          any = any_of;
          none = none_of;
          required = required_fields 0 all_of;
        } =
          cc in
        rw built (record {
          name = refl;
          class = refl;
          priority = refl;
          specificity = refl;
          order = refl;
          all_of = compile_predicates-Compiled rx r.all count w.all_of e1;
          any_of = compile_predicates-Compiled rx r.any count1 w.any_of e2;
          none_of = compile_predicates-Compiled rx r.none count2 w.none_of e3;
          required = refl;
        })

-- Where a compiled rule comes from
pub record Origin (rules : List Rule) (base : ℕ) (cr : CompiledRule) : Type 0 where
  pub place : ℕ
  pub rule : Rule
  pub found : index rules place ≡ ret rule
  pub from : From (base + place) rule cr

pub record Outcome (rules : List Rule) (base : ℕ) (crs : List CompiledRule) : Type 0 where
  pub same_length : length crs ≡ length rules
  pub origins : All (Origin rules base) crs
  pub compiled_at :
      (j : ℕ) (s : Rule)
      → index rules j ≡ ret s
      → (cs : CompiledRule) × (index crs j ≡ ret cs) × From (base + j) s cs

Origin-later :
    (r : Rule) (rules : List Rule) (base : ℕ) (crs : List CompiledRule)
    → All (Origin rules (suc base)) crs
    → All (Origin (r ∷ rules) base) crs
unfolding index
Origin-later r rules base [] a = tt
Origin-later r rules base (cr ∷ crs) a =
    let o = a.0 in
    let shift : suc base + o.place ≡ base + suc o.place = omega arith in
    (
      record { place = suc o.place; rule = o.rule; found = o.found; from = rw shift at o.from },
      Origin-later r rules base crs a.1,
    )

with_first :
    (i : ℕ) (r : Rule) (rs : List Rule) {cr : CompiledRule} {rest : List CompiledRule}
    → From i r cr
    → Outcome rs (suc i) rest
    → Outcome (r ∷ rs) i (cr ∷ rest)
unfolding index
with_first i r rs {cr} {rest} from o = record {
  same_length = ap suc o.same_length;
  origins = (
    record { place = 0; rule = r; found = refl; from = rw here from },
    Origin-later r rs i rest o.origins,
  );
  compiled_at = at_place;
}
  where
    here : i + 0 ≡ i
    here = omega arith

    at_place :
        (j : ℕ) (s : Rule)
        → index (r ∷ rs) j ≡ ret s
        → (cs : CompiledRule) × (index (cr ∷ rest) j ≡ ret cs) × From (i + j) s cs
    at_place zero s e = let same : r ≡ s = cc in (cr, refl, rw here (rw same at from))
    at_place (suc j) s e =
        let (cs, found, f) = o.compiled_at j s e in
        let shift : suc i + j ≡ i + suc j = omega arith in (cs, found, rw shift at f)

pub compile_rules-Outcome :
    (rx : Regexp) (i : ℕ) (rules : List Rule) (count : ℕ) {crs : List CompiledRule}
    → All IsRule rules
    → compile_rules rx i rules count ≡ passed crs
    → Outcome rules i crs
unfolding compile_rules index
compile_rules-Outcome rx i [] count {crs} w h =
    let nothing : crs ≡ [] = cc in
    rw nothing (record { same_length = refl; origins = tt; compiled_at = λ j s e. cc })
compile_rules-Outcome rx i (r ∷ rs) count {crs} w h =
    let ((cr, count1), first, h1) = >>=-eq-passed (compile_rule rx i r count) _ h in
    let (rest, others, h2) = >>=-eq-passed (compile_rules rx (suc i) rs count1) _ h1 in
    let from = compile_rule-From rx i r count w.0 first in
    let o = compile_rules-Outcome rx (suc i) rs count1 w.1 others in
    let parts : crs ≡ cr ∷ rest = cc in rw parts (with_first i r rs from o)
