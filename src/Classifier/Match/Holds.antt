-- ===== src/Classifier/Match/Holds.antt =====
-- What a predicate says of a device, and that `matchPredicate` decides it, without a panic, for the
-- predicates that were compiled.
use native.Mathlib.Nat.{eq_of_mul-eq-mul_right}
use omnidiscover.Prelude.{
  ℕ, zero, suc, ◌-◌, ◌*◌, ◌/◌, ◌%◌, ◌^◌, ◌≤◌, ◌<◌, ◌≡◌, ◌≢◌, refl, sym, ap, ◌∙◌, Bool, true, false,
  not, ◌&&◌, List, [], ◌∷◌, some, ◌==◌, ==_iff, if◌then◌else◌, split_if, split_eq, split_lt, length,
  map, take, all, any, All, IsByte, bit_and, Bytes, equal, arith,
}
use omnidiscover.Prelude.Bits.{all_below, all_below_sound}
use omnidiscover.Go.{Go, ret, ◌>>=◌, index}
use omnidiscover.Go.Ensures.{slice_lem}
use omnidiscover.Net.{Mac, Addr}
use omnidiscover.Net.Prefix.{Prefix, agree, prefix_contains}
use omnidiscover.Model.{DiscoveredDevice}
use omnidiscover.Classifier.Rule.{
  MatchOp, match_exact, match_regex, match_protocol, match_mac_prefix, match_ip_prefix,
  match_capability_all, invalid_op, MacPrefix, Predicate, Regexp, CompiledPredicate,
}
use omnidiscover.Classifier.Match.{
  mac_prefix_match, fold_byte, equal_fold_loop, equal_fold_ascii, visit_values, texts,
  visit_text_field, match_text, any_mac, any_address, match_op, match_predicate, all_predicates,
  any_predicates,
}

-- Equality of texts, of their lower case if the predicate folds
abbrev pub same_text : Predicate → Bytes → Bool
same_text p t =
    if p.fold_ascii then equal (map fold_byte t) (map fold_byte p.value) else equal t p.value

unfoldable pub holds_op : Regexp → Predicate → MatchOp → DiscoveredDevice → Bool
holds_op rx p match_protocol d = not (bit_and d.protocols p.protocol == 0)
holds_op rx p match_mac_prefix d =
    any (λ m. agree p.mac_prefix.bits m p.mac_prefix.address) d.observed_macs
holds_op rx p match_ip_prefix d = any (prefix_contains p.ip_prefix) d.addresses
holds_op rx p match_capability_all d = bit_and d.capabilities p.capability == p.capability
holds_op rx p match_exact d = any (same_text p) (texts d p.field)
holds_op rx p match_regex d = any (rx.finds p.pattern_text) (texts d p.field)
holds_op rx p (invalid_op n) d = false

-- What a predicate says of a device
unfoldable pub holds : Regexp → Predicate → DiscoveredDevice → Bool
unfolding holds_op
holds rx p d = holds_op rx p p.op d

-- An array `[6]byte`
pub record IsMac (m : Mac) : Type 0 where
  pub six : length m ≡ 6
  pub bytes : All IsByte m

-- What compilation makes sure of, by the operation
unfoldable pub IsReady : CompiledPredicate → MatchOp → Type 0
IsReady p match_exact = p.exact ≡ p.predicate.value
IsReady p match_regex = p.re ≡ some p.predicate.pattern_text
IsReady p match_protocol = bit_and p.predicate.protocol 240 ≡ 0
IsReady p match_mac_prefix =
    (p.predicate.mac_prefix.bits ≤ 48) × IsMac p.predicate.mac_prefix.address
IsReady p match_ip_prefix = Unit
IsReady p match_capability_all = Unit
IsReady p (invalid_op n) = Unit

abbrev pub IsCompiled : CompiledPredicate → Type 0
IsCompiled p = IsReady p p.predicate.op

mask_table :
    all_below 8 (λ n.
      all_below 256 (λ x. bit_and x (255 * 2 ^ (8 - n) % 256) == x / 2 ^ (8 - n) * 2 ^ (8 - n)))
    ≡ true
unfolding all_below
mask_table = refl

masked :
    (n x : ℕ)
    → n < 8
    → x < 256
    → bit_and x (255 * 2 ^ (8 - n) % 256) ≡ x / 2 ^ (8 - n) * 2 ^ (8 - n)
masked n x h lt = (==_iff _ _).0 (all_below_sound 256 _ (all_below_sound 8 _ mask_table n h) x lt)

power_pos : (k : ℕ) → 0 < 2 ^ k
power_pos zero = omega arith
power_pos (suc k) = omega (arith, power_pos k)

same_multiple : (a b c : ℕ) → 0 < c → (a * c == b * c) ≡ (a == b)
same_multiple a b c pos =
    split_eq (a * c) (b * c)
      (λ e same. let equal' : a ≡ b = eq_of_mul-eq-mul_right c pos a b same in rw e (ground arith))
      λ e other. rw e (split_eq a b (λ _ same. absurd (other (ap (λ k. k * c) same))) (λ t _. rw t))

same_bits :
    (n x y : ℕ)
    → n < 8
    → x < 256
    → y < 256
    → (bit_and x (255 * 2 ^ (8 - n) % 256) == bit_and y (255 * 2 ^ (8 - n) % 256))
      ≡ (x / 2 ^ (8 - n) == y / 2 ^ (8 - n))
same_bits n x y h p q =
    rw (masked n x h p, masked n y h q)
      (same_multiple (x / 2 ^ (8 - n)) (y / 2 ^ (8 - n)) (2 ^ (8 - n)) (power_pos (8 - n)))

-- `macPrefixMatch` behind its two slices
compare_bits : ℕ → Bytes → Bytes → Go Bool
compare_bits n xs ys =
    if not (equal (take (n / 8) xs) (take (n / 8) ys))
    then ret false
    else if n % 8 == 0
    then ret true
    else do
      x ← index xs (n / 8)
      y ← index ys (n / 8)
      let mask = 255 * 2 ^ (8 - n % 8) % 256
      ret (bit_and x mask == bit_and y mask)

unfold_compare :
    (n : ℕ) (xs ys : Bytes)
    → (if not (equal (take (n / 8) xs) (take (n / 8) ys))
        then ret false
        else (if n % 8 == 0 then ret true else do
          x ← index xs (n / 8)
          y ← index ys (n / 8)
          let mask = 255 * 2 ^ (8 - n % 8) % 256
          ret (bit_and x mask == bit_and y mask)))
      ≡ compare_bits n xs ys
unfolding compare_bits
unfold_compare n xs ys = refl

compare_bits-few :
    (n x y : ℕ) (xs ys : Bytes)
    → n < 8
    → x < 256
    → y < 256
    → compare_bits n (x ∷ xs) (y ∷ ys) ≡ ret (x / 2 ^ (8 - n) == y / 2 ^ (8 - n))
unfolding compare_bits index equal
compare_bits-few n x y xs ys h p q =
    let whole : n / 8 ≡ 0 = omega arith in
    let rem : n % 8 ≡ n = omega arith in
    rw (whole, rem)
      (split_eq n 0
        (λ e z. let top : x / 2 ^ 8 ≡ y / 2 ^ 8 = omega arith in rw (z, top) (ground arith))
        λ e z. rw (e, same_bits n x y h p q))

compare_bits-agree :
    (n : ℕ) (xs ys : Bytes)
    → n ≤ 8 * length xs
    → length xs ≡ length ys
    → All IsByte xs
    → All IsByte ys
    → compare_bits n xs ys ≡ ret (agree n xs ys)
unfolding agree compare_bits index equal
compare_bits-agree n [] [] h l p q = let z : n ≡ 0 = omega arith in rw z
compare_bits-agree n [] (y ∷ ys) h l p q = absurd (omega arith)
compare_bits-agree n (x ∷ xs) [] h l p q = absurd (omega arith)
compare_bits-agree n (x ∷ xs) (y ∷ ys) h l p q =
    let rest = compare_bits-agree (n - 8) xs ys (omega arith) (omega arith) p.1 q.1 in
    split_lt n 8 (λ e few. rw e (compare_bits-few n x y xs ys few p.0 q.0))
      λ e many.
        let whole : n / 8 ≡ suc ((n - 8) / 8) = omega arith in
        let rem : n % 8 ≡ (n - 8) % 8 = omega arith in
        rw (e, whole, rem) (split_if (x == y) (λ t. rw t rest) λ t. rw t)

mac_prefix_match-agree :
    (m : Mac) (p : MacPrefix)
    → p.bits ≤ 48
    → IsMac m
    → IsMac p.address
    → mac_prefix_match m p ≡ ret (agree p.bits m p.address)
unfolding mac_prefix_match
mac_prefix_match-agree m p h a b =
    let first = slice_lem m 0 (p.bits / 8) (omega arith) (omega (arith, a.six)) in
    let second = slice_lem p.address 0 (p.bits / 8) (omega arith) (omega (arith, b.six)) in
    let whole : p.bits / 8 - 0 ≡ p.bits / 8 = omega arith in
    rw (first, second, whole)
      (unfold_compare p.bits m p.address
        ∙ compare_bits-agree p.bits m p.address (omega (arith, a.six)) (omega (arith, a.six, b.six))
            a.bytes b.bytes)

equal_fold_loop-equal :
    (a b : Bytes)
    → length a ≡ length b
    → equal_fold_loop a b ≡ equal (map fold_byte a) (map fold_byte b)
unfolding equal_fold_loop equal
equal_fold_loop-equal [] [] h = refl
equal_fold_loop-equal [] (y ∷ ys) h = absurd (omega arith)
equal_fold_loop-equal (x ∷ xs) [] h = absurd (omega arith)
equal_fold_loop-equal (x ∷ xs) (y ∷ ys) h =
    let rest = equal_fold_loop-equal xs ys (omega arith) in
    split_if (fold_byte x == fold_byte y) (λ t. rw (t, rest)) λ t. rw t

not_equal : (f : ℕ → ℕ) (a b : Bytes) → length a ≢ length b → equal (map f a) (map f b) ≡ false
unfolding equal
not_equal f [] [] h = absurd (h refl)
not_equal f [] (y ∷ ys) h = refl
not_equal f (x ∷ xs) [] h = refl
not_equal f (x ∷ xs) (y ∷ ys) h =
    let rest = not_equal f xs ys (λ e. h (ap suc e)) in rw rest (and_false (f x == f y))
  where
    and_false : (b : Bool) → (b && false) ≡ false
    and_false b = ground arith

equal_fold_ascii-equal :
    (a b : Bytes) → equal_fold_ascii a b ≡ equal (map fold_byte a) (map fold_byte b)
unfolding equal_fold_ascii
equal_fold_ascii-equal a b =
    split_eq (length a) (length b) (λ e same. rw e (equal_fold_loop-equal a b same))
      λ e other. rw e (sym (not_equal fold_byte a b other))

visit_values-any :
    (fn : Bytes → Go Bool) (g : Bytes → Bool)
    → ((t : Bytes) → fn t ≡ ret (g t))
    → (ts : List Bytes) → visit_values ts fn ≡ ret (any g ts)
unfolding visit_values
visit_values-any fn g h [] = refl
visit_values-any fn g h (t ∷ ts) =
    let rest = visit_values-any fn g h ts in rw (h t) (split_if (g t) (λ e. rw e) λ e. rw e rest)

match_text-same :
    (p : CompiledPredicate)
    → p.exact ≡ p.predicate.value
    → (t : Bytes) → match_text p t ≡ ret (same_text p.predicate t)
match_text-same p h t = rw h (
    split_if p.predicate.fold_ascii
      (λ e. rw e (ap ret (equal_fold_ascii-equal t p.predicate.value))) λ e. rw e)

any_mac-agree :
    (ms : List Mac) (p : MacPrefix)
    → p.bits ≤ 48
    → IsMac p.address
    → All IsMac ms
    → any_mac ms p ≡ ret (any (λ m. agree p.bits m p.address) ms)
unfolding any_mac
any_mac-agree [] p h b a = refl
any_mac-agree (m ∷ ms) p h b a =
    let rest = any_mac-agree ms p h b a.1 in
    rw (mac_prefix_match-agree m p h a.0 b)
      (split_if (agree p.bits m p.address) (λ e. rw e) λ e. rw e rest)

any_address-any : (as' : List Addr) (p : Prefix) → any_address as' p ≡ any (prefix_contains p) as'
unfolding any_address
any_address-any [] p = refl
any_address-any (a ∷ as') p = rw (any_address-any as' p) (ground arith)

module _ (rx : Regexp) (d : DiscoveredDevice) (macs : All IsMac d.observed_macs) where
  match_op-holds :
      (p : CompiledPredicate) (op : MatchOp)
      → IsReady p op
      → match_op rx p op d ≡ ret (holds_op rx p.predicate op d)
  unfolding match_op holds_op IsReady visit_text_field
  match_op-holds p match_exact h =
      visit_values-any (match_text p) (same_text p.predicate) (match_text-same p h) _
  match_op-holds p match_regex h =
      rw h (visit_values-any _ (rx.finds p.predicate.pattern_text) (λ t. refl) _)
  match_op-holds p match_protocol h = refl
  match_op-holds p match_mac_prefix h =
      any_mac-agree d.observed_macs p.predicate.mac_prefix h.0 h.1 macs
  match_op-holds p match_ip_prefix h = ap ret (any_address-any d.addresses p.predicate.ip_prefix)
  match_op-holds p match_capability_all h = refl
  match_op-holds p (invalid_op n) h = refl

  -- A compiled predicate matches exactly if it holds.
  pub match_predicate-holds :
      (p : CompiledPredicate) → IsCompiled p → match_predicate rx p d ≡ ret (holds rx p.predicate d)
  unfolding match_predicate holds
  match_predicate-holds p h = match_op-holds p p.predicate.op h

  pub all_predicates-holds :
      (ps : List CompiledPredicate)
      → All IsCompiled ps
      → all_predicates rx ps d ≡ ret (all (λ p. holds rx p.predicate d) ps)
  unfolding all_predicates
  all_predicates-holds [] h = refl
  all_predicates-holds (p ∷ ps) h =
      let rest = all_predicates-holds ps h.1 in
      rw (match_predicate-holds p h.0)
        (split_if (holds rx p.predicate d) (λ e. rw e rest) λ e. rw e)

  pub any_predicates-holds :
      (ps : List CompiledPredicate)
      → All IsCompiled ps
      → any_predicates rx ps d ≡ ret (any (λ p. holds rx p.predicate d) ps)
  unfolding any_predicates
  any_predicates-holds [] h = refl
  any_predicates-holds (p ∷ ps) h =
      let rest = any_predicates-holds ps h.1 in
      rw (match_predicate-holds p h.0)
        (split_if (holds rx p.predicate d) (λ e. rw e) λ e. rw e rest)
