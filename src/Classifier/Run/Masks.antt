-- ===== src/Classifier/Run/Masks.antt =====
-- The masks that `CompileClassifier` fills in have a digit for each rule that is possible, and with
-- them the loops of `Classify` find the first possible rule that matches.
use omnidiscover.Prelude.{
  ℕ, zero, suc, ◌+◌, ◌-◌, ◌*◌, ◌/◌, ◌%◌, ◌^◌, ◌≤◌, ◌<◌, ◌≡◌, refl, sym, ap, ◌∙◌, Bool, true, false,
  ◌&&◌, ◌||◌, List, [], ◌∷◌, Option, none, some, ltb, leb, ◌==◌, if◌then◌else◌, split_if, split_eq,
  length, take, drop, drop-all, drop-drop, get_or, set, length-set, All, bit_or, arith,
}
use omnidiscover.Prelude.Digits.{
  test_bit, test_bit-suc, test_bit-zero, test_bit-or, test_bit-power, lt_of_bits,
}
use omnidiscover.Go.{Go, ret}
use omnidiscover.Protocol.{ProtocolSet}
use omnidiscover.Model.{DiscoveredDevice}
use omnidiscover.Classifier.Rule.{Regexp, CompiledRule}
use omnidiscover.Classifier.Compile.{possible, mark_rules, candidate_masks}
use omnidiscover.Classifier.Run.{rule_matches, words_loop}
use omnidiscover.Classifier.Run.Words.{first, scan, word_loop-scan}

get_or-set {ℓ} :
    {A : Type ℓ} (xs : List A) (i j : ℕ) (v z : A)
    → i < length xs
    → get_or (set xs i v) j z ≡ (if i == j then v else get_or xs j z)
get_or-set [] i j v z h = elim h [ ]
get_or-set (x ∷ xs) zero zero v z h = refl
get_or-set (x ∷ xs) zero (suc j) v z h = ground arith
get_or-set (x ∷ xs) (suc i) zero v z h = ground arith
get_or-set (x ∷ xs) (suc i) (suc j) v z h = ground (arith, get_or-set xs i j v z)

lowest_bit : (c : ℕ) → (c % 2 == 1) ≡ test_bit 0 c
unfolding test_bit
lowest_bit c = refl

or_next {ℓ} : {A : Type ℓ} → Option A → Option A → Option A
or_next (some x) o = some x
or_next none o = o

after :
    (o : Option CompiledRule) {f : Option CompiledRule} {rest : Go (Option CompiledRule)}
    → rest ≡ ret f
    → elim o as (λ _. Go (Option CompiledRule)) [ none ↦ rest | some r ↦ ret (some r) ]
      ≡ ret (or_next o f)
unfolding or_next
after none h = h
after (some r) h = refl

module _ {ℓ} {A : Type ℓ} (p : A → Bool) where
  -- Whether element t is there and has the property
  pub marked : List A → ℕ → Bool
  marked [] t = false
  marked (x ∷ xs) zero = p x
  marked (x ∷ xs) (suc t) = marked xs t

  pub marked-drop : (xs : List A) (base t : ℕ) → marked (drop base xs) t ≡ marked xs (base + t)
  unfolding marked
  marked-drop xs zero t = ap (marked xs) (omega arith)
  marked-drop [] (suc base) t = refl
  marked-drop (x ∷ xs) (suc base) t = marked-drop xs base t ∙ rw (suc_add base t) (refl)
    where
      suc_add : (a b : ℕ) → suc a + b ≡ suc (a + b)
      suc_add a b = omega arith

  module _ (m : A → Bool) where
    -- Digits that mark a property narrow the search to it.
    scan-first :
        (xs : List A) (n c : ℕ)
        → ((j : ℕ) → test_bit j c ≡ (ltb j n && marked xs j))
        → scan m c xs ≡ first (λ x. p x && m x) (take n xs)
    unfolding scan first marked
    scan-first [] zero c h = refl
    scan-first [] (suc n) c h = refl
    scan-first (x ∷ xs) zero c h =
        let low : (c % 2 == 1) ≡ false = lowest_bit c ∙ h 0 in
        rw low (scan-first xs zero (c / 2) (λ j. sym (test_bit-suc j c) ∙ h (suc j) ∙ ground arith))
    scan-first (x ∷ xs) (suc n) c h =
        let low : (c % 2 == 1) ≡ p x = lowest_bit c ∙ h 0 ∙ ground arith in
        let rest =
          scan-first xs n (c / 2) (λ j. sym (test_bit-suc j c) ∙ h (suc j) ∙ ground arith) in
        rw (low, rest)

  first-take-drop :
      (n : ℕ) (xs : List A) → or_next (first p (take n xs)) (first p (drop n xs)) ≡ first p xs
  unfolding first or_next
  first-take-drop zero xs = refl
  first-take-drop (suc n) [] = refl
  first-take-drop (suc n) (x ∷ xs) = split_if (p x) (λ e. rw e) λ e. rw e (first-take-drop n xs)

abbrev possible_rule : ProtocolSet → CompiledRule → Bool
possible_rule observed r = possible observed r.all

-- One round of the loop that marks the rules
mark_rule : ProtocolSet → ℕ → CompiledRule → List ℕ → List ℕ
mark_rule observed i r words =
    if possible observed r.all
    then set words (i / 64) (bit_or (get_or words (i / 64) 0) (2 ^ (i % 64)))
    else words

place : (i w j : ℕ) → (i / 64 == w && j == i % 64) ≡ (ltb j 64 && (64 * w + j == i))
place i w j = ground arith

mark_rule-digits :
    (observed : ProtocolSet) (i : ℕ) (r : CompiledRule) (words : List ℕ) (w j : ℕ)
    → i < 64 * length words
    → test_bit j (get_or (mark_rule observed i r words) w 0) ≡ (
        test_bit j (get_or words w 0) || (ltb j 64 && (64 * w + j == i && possible observed r.all)))
unfolding mark_rule
mark_rule-digits observed i r words w j room =
    split_if (possible observed r.all)
      (λ e.
        let word = get_or words (i / 64) 0 in
        rw (e, get_or-set words (i / 64) w (bit_or word (2 ^ (i % 64))) 0 (omega arith))
          (split_eq (i / 64) w
            (λ t same.
              rw (t, test_bit-or j word (2 ^ (i % 64)), test_bit-power j (i % 64), same)
                (ground (arith, place i w j)))
            λ t other. rw t (ground (arith, place i w j))))
      λ e. rw e (ground arith)

mark_rules-step :
    (observed : ProtocolSet) (r : CompiledRule) (rs : List CompiledRule) (i : ℕ) (words : List ℕ)
    → mark_rules observed i (r ∷ rs) words
      ≡ mark_rules observed (suc i) rs (mark_rule observed i r words)
unfolding mark_rules mark_rule
mark_rules-step observed r rs i words = refl

length-mark_rule :
    (observed : ProtocolSet) (i : ℕ) (r : CompiledRule) (words : List ℕ)
    → length (mark_rule observed i r words) ≡ length words
unfolding mark_rule
length-mark_rule observed i r words =
    split_if (possible observed r.all) (λ e. rw e (length-set words (i / 64) _)) λ e. rw e

marked-cons {ℓ} :
    {A : Type ℓ} (p : A → Bool) (x : A) (xs : List A) (t : ℕ)
    → marked p (x ∷ xs) t ≡ (if t == 0 then p x else marked p xs (t - 1))
unfolding marked
marked-cons p x xs zero = refl
marked-cons p x xs (suc t) = ground arith

-- The digits of the words behind the marking of the rules from i on
mark_rules-digits :
    (observed : ProtocolSet) (rs : List CompiledRule) (i : ℕ) (words : List ℕ) (w j : ℕ)
    → i + length rs ≤ 64 * length words
    → test_bit j (get_or (mark_rules observed i rs words) w 0) ≡ (
        test_bit j (get_or words w 0)
        || (ltb j 64
            && (leb i (64 * w + j) && marked (possible_rule observed) rs (64 * w + j - i))))
unfolding mark_rules marked
mark_rules-digits observed [] i words w j room = ground arith
mark_rules-digits observed (r ∷ rs) i words w j room =
    let words' = mark_rule observed i r words in
    let kept = length-mark_rule observed i r words in
    let same : 64 * w + j - i - 1 ≡ 64 * w + j - suc i = omega arith in
    ap (λ ws. test_bit j (get_or ws w 0)) (mark_rules-step observed r rs i words)
    ∙ mark_rules-digits observed rs (suc i) words' w j (omega (arith, kept))
    ∙ ground (
      arith,
      same,
      mark_rule-digits observed i r words w j (omega arith),
      marked-cons (possible_rule observed) r rs (64 * w + j - i),
    )

length-mark_rules :
    (observed : ProtocolSet) (rs : List CompiledRule) (i : ℕ) (words : List ℕ)
    → length (mark_rules observed i rs words) ≡ length words
unfolding mark_rules
length-mark_rules observed [] i words = refl
length-mark_rules observed (r ∷ rs) i words =
    ap (λ ws. length ws) (mark_rules-step observed r rs i words)
    ∙ length-mark_rules observed rs (suc i) (mark_rule observed i r words)
    ∙ length-mark_rule observed i r words

module _ (rx : Regexp) (d : DiscoveredDevice) (available : ℕ) (rules : List CompiledRule)
    (m : CompiledRule → Bool) (known : All (λ r. rule_matches rx d available r ≡ ret (m r)) rules)
    (p : CompiledRule → Bool) where
  -- The words have a digit for each rule from `base` on that has the property.
  abbrev Marks : ℕ → List ℕ → Type 0
  Marks base [] = Unit
  Marks base (w ∷ ws) =
      ((j : ℕ) → test_bit j w ≡ (ltb j 64 && marked p rules (base + j))) × Marks (base + 64) ws

  first_words : ℕ → List ℕ → Option CompiledRule
  first_words base [] = none
  first_words base (w ∷ ws) =
      or_next (first (λ r. p r && m r) (take 64 (drop base rules))) (first_words (base + 64) ws)

  words_loop-first_words :
      (base : ℕ) (ws : List ℕ)
      → Marks base ws
      → words_loop rx d available rules base ws ≡ ret (first_words base ws)
  unfolding words_loop first_words
  words_loop-first_words base [] h = refl
  words_loop-first_words base (w ∷ ws) h =
      let small : w < 2 ^ 64 = lt_of_bits 64 w (λ j le. h.0 j ∙ ground arith) in
      let word =
        word_loop-scan rx d available rules m known 64 65 base w (omega arith) (omega arith)
          small in
      let narrowed =
        scan-first p m (drop base rules) 64 w
          (λ j. h.0 j ∙ ap (ltb j 64 &&◌) (sym (marked-drop p rules base j))) in
      rw (word, narrowed)
        (after (first (λ r. p r && m r) (take 64 (drop base rules)))
          (words_loop-first_words (base + 64) ws h.1))

  first_words-first :
      (base : ℕ) (ws : List ℕ)
      → length rules ≤ base + 64 * length ws
      → first_words base ws ≡ first (λ r. p r && m r) (drop base rules)
  unfolding first_words first
  first_words-first base [] h = rw (drop-all rules base (omega arith))
  first_words-first base (w ∷ ws) h =
      ap (or_next (first (λ r. p r && m r) (take 64 (drop base rules)))) (
        first_words-first (base + 64) ws (omega arith)
        ∙ ap (first (λ r. p r && m r)) (sym (drop-drop base 64 rules)))
      ∙ first-take-drop (λ r. p r && m r) 64 (drop base rules)

  -- On masks for a property the loops find the first rule that has it and matches.
  words_loop-first :
      (ws : List ℕ)
      → Marks 0 ws
      → length rules ≤ 64 * length ws
      → words_loop rx d available rules 0 ws ≡ ret (first (λ r. p r && m r) rules)
  words_loop-first ws h room =
      words_loop-first_words 0 ws h ∙ ap ret (first_words-first 0 ws (omega arith))

four :
    (ws : List ℕ)
    → length ws ≡ 4
    → ws ≡ get_or ws 0 0 ∷ get_or ws 1 0 ∷ get_or ws 2 0 ∷ get_or ws 3 0 ∷ []
four (a ∷ b ∷ c ∷ e ∷ []) h = refl
four [] h = absurd (omega arith)
four (a ∷ []) h = absurd (omega arith)
four (a ∷ b ∷ []) h = absurd (omega arith)
four (a ∷ b ∷ c ∷ []) h = absurd (omega arith)
four (a ∷ b ∷ c ∷ e ∷ f ∷ r) h = absurd (omega arith)

abbrev no_marks : List ℕ
no_marks = 0 ∷ 0 ∷ 0 ∷ 0 ∷ []

abbrev pub mask_of : ProtocolSet → List CompiledRule → List ℕ
mask_of observed rules = mark_rules observed 0 rules no_marks

pub candidate_masks-mask :
    (n k : ℕ) (observed : ProtocolSet) (rules : List CompiledRule)
    → k < n
    → get_or (candidate_masks n observed rules) k [] ≡ mask_of (observed + k) rules
unfolding candidate_masks
candidate_masks-mask zero k observed rules h = elim h [ ]
candidate_masks-mask (suc n) zero observed rules h = ap (λ o. mask_of o rules) (omega arith)
candidate_masks-mask (suc n) (suc k) observed rules h =
    candidate_masks-mask n k (suc observed) rules (omega arith)
    ∙ ap (λ o. mask_of o rules) (omega arith)

no_marks_at : (w : ℕ) → get_or no_marks w 0 ≡ 0
no_marks_at zero = refl
no_marks_at (suc zero) = refl
no_marks_at (suc (suc zero)) = refl
no_marks_at (suc (suc (suc zero))) = refl
no_marks_at (suc (suc (suc (suc w)))) = refl

mask_of-digits :
    (observed : ProtocolSet) (rules : List CompiledRule) (w j : ℕ)
    → length rules ≤ 256
    → test_bit j (get_or (mask_of observed rules) w 0)
      ≡ (ltb j 64 && marked (possible_rule observed) rules (64 * w + j))
mask_of-digits observed rules w j room =
    let from_zero : 64 * w + j - 0 ≡ 64 * w + j = omega arith in
    let any_place : leb 0 (64 * w + j) ≡ true = ground arith in
    mark_rules-digits observed rules 0 no_marks w j (omega arith)
    ∙ rw (no_marks_at w, test_bit-zero j, from_zero, any_place)

-- `Classify` finds the first rule that is possible and matches.
pub words_loop-possible :
    (rx : Regexp) (d : DiscoveredDevice) (available : ℕ) (rules : List CompiledRule)
    (m : CompiledRule → Bool) (observed : ProtocolSet)
    → All (λ r. rule_matches rx d available r ≡ ret (m r)) rules
    → length rules ≤ 256
    → words_loop rx d available rules 0 (mask_of observed rules)
      ≡ ret (first (λ r. possible observed r.all && m r) rules)
words_loop-possible rx d available rules m observed known room =
    let digits = λ (w j : ℕ). mask_of-digits observed rules w j room in
    let shape = four (mask_of observed rules) (length-mark_rules observed rules 0 no_marks) in
    rw shape (
      words_loop-first rx d available rules m known (possible_rule observed) _
        (digits 0, (digits 1, (digits 2, (digits 3, tt)))) room)
