-- ===== src/Classifier/Run.antt =====
-- classifier.go: `Classify`, which goes over the rules that the device's protocols allow.
pub mod Words
pub mod Masks
pub mod First
use omnidiscover.Prelude.{
  ℕ, zero, suc, ◌+◌, ◌-◌, ◌/◌, ◌%◌, Bool, true, false, not, List, [], ◌∷◌, Option, none, some, ltb,
  leb, ◌==◌, if◌then◌else◌, length, get_or, bit_and, Bytes,
}
use omnidiscover.Go.{Go, ret, hang, ◌>>=◌, index}
use omnidiscover.Protocol.{protocols_all}
use omnidiscover.Model.{DiscoveredDevice}
use omnidiscover.Classifier.Rule.{Regexp, CompiledRule, Classifier}
use omnidiscover.Classifier.Match.{all_predicates, any_predicates, populated_text_fields}

-- `bits.TrailingZeros64`
trailing_zeros : ℕ → ℕ → ℕ
trailing_zeros zero c = 0
trailing_zeros (suc n) c = if c % 2 == 1 then 0 else suc (trailing_zeros n (c / 2))

unfoldable pub trailing_zeros64 : ℕ → ℕ
unfolding trailing_zeros
trailing_zeros64 c = trailing_zeros 64 c

module _ (rx : Regexp) (d : DiscoveredDevice) where
  -- The tests of `Classify` on a candidate
  unfoldable pub rule_matches : ℕ → CompiledRule → Go Bool
  rule_matches available r =
      if not (bit_and r.required available == r.required) then ret false else do
        every ← all_predicates rx r.all d
        if not every then ret false else do
          excluded ← any_predicates rx r.none d
          if excluded
              then ret false
              else (if ltb 0 (length r.any) then any_predicates rx r.any d else ret true)

  -- The rules of one word of the mask, whose lowest digit is rule `base`
  unfoldable pub word_loop : ℕ → ℕ → List CompiledRule → ℕ → ℕ → Go (Option CompiledRule)
  word_loop zero available rules base candidates = hang
  word_loop (suc rounds) available rules base candidates =
      if candidates == 0
      then ret none
      else let i = base + trailing_zeros64 candidates in
        let rest = word_loop rounds available rules base (bit_and candidates (candidates - 1)) in
        if leb (length rules) i then ret none else do
          r ← index rules i
          matched ← rule_matches available r
          if matched then ret (some r) else rest

  -- The words of the mask, each with at most 64 digits
  unfoldable pub words_loop : ℕ → List CompiledRule → ℕ → List ℕ → Go (Option CompiledRule)
  words_loop available rules base [] = ret none
  words_loop available rules base (w ∷ ws) =
      word_loop 65 available rules base w
      >>= elim [ some r ↦ ret (some r) | none ↦ words_loop available rules (base + 64) ws ]

-- The class and the name of the rule
abbrev pub names_of : Option CompiledRule → Option (Bytes × Bytes)
names_of none = none
names_of (some r) = some (r.class, r.name)

-- `Classify`; `none` is a result that is not `ok`.
unfoldable pub classify :
    Regexp → Option Classifier → Option DiscoveredDevice → Go (Option (Bytes × Bytes))
unfolding trailing_zeros64 word_loop words_loop rule_matches
classify rx none d = ret none
classify rx (some c) none = ret none
classify rx (some c) (some d) = do
  let mask = get_or c.protocol_candidates (bit_and d.protocols protocols_all) []
  found ← words_loop rx d (populated_text_fields d) c.rules 0 mask
  ret (names_of found)
