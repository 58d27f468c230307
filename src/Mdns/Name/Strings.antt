-- ===== src/Mdns/Name/Strings.antt =====
-- What `validateTXT` of mdns.go accepts.
use omnidiscover.Prelude.{
  ℕ, zero, suc, ◌+◌, ◌-◌, ◌≤◌, ◌<◌, ◌≡◌, ◌↔◌, refl, sym, ◌∙◌, ap, Bool, true, [], ◌∷◌, ◌++◌, arith,
  split_lt, split_le, length, length-append, length-drop, drop-drop, take-append-drop, take, drop,
  Bytes,
}
use omnidiscover.Go.Ensures.{Ensures, ensures, Ensures-loop, Progress, index-drop}
use omnidiscover.Mdns.Name.{skip_string, validate_txt}

-- Character strings one behind the other, each behind its length: RFC 6763, section 6.
pub data Strings : Bytes → Type 0 where
  no_strings : Strings []
  string : {b : Bytes} (s rest : Bytes) → b ≡ length s ∷ s ++ rest → Strings rest → Strings b

drop-append : (s rest : Bytes) → drop (length s) (s ++ rest) ≡ rest
drop-append [] rest = refl
drop-append (x ∷ s) rest = drop-append s rest

length-take-fits : (n : ℕ) (r : Bytes) → n ≤ length r → length (take n r) ≡ n
length-take-fits zero r h = refl
length-take-fits (suc n) [] h = absurd (omega arith)
length-take-fits (suc n) (x ∷ r) h = omega (arith, length-take-fits n r (omega arith))

-- Behind a length that fits.
string-fits : (n : ℕ) (r : Bytes) → n ≤ length r → Strings (n ∷ r) ↔ Strings (drop n r)
string-fits n r h = (back, λ t. string (take n r) (drop n r) joined t)
  where
    joined : n ∷ r ≡ length (take n r) ∷ take n r ++ drop n r
    joined = rw (length-take-fits n r h, take-append-drop n r)

    parts : (s rest : Bytes) → n ∷ r ≡ length s ∷ s ++ rest → drop n r ≡ rest
    parts s rest e =
        let size : n ≡ length s = cc in
        let both : r ≡ s ++ rest = cc in rw (size, both) (drop-append s rest)

    back : Strings (n ∷ r) → Strings (drop n r)
    back (string s rest e t) = rw (parts s rest e) t

string-too_long : (n : ℕ) (r : Bytes) → length r < n → Strings (n ∷ r) → ⊥
string-too_long n r h (string s rest e t) =
    let size : n ≡ length s = cc in
    let both : r ≡ s ++ rest = cc in omega (arith, ap length both, length-append s rest)

module _ (b : Bytes) where
  record Inv (off : ℕ) : Type 0 where
    inside : off ≤ length b
    same : Strings b ↔ Strings (drop off b)

  abbrev Result : Bool → Type 0
  Result v = (v ≡ true) ↔ Strings b

  left : ℕ → ℕ
  left off = length b - off

  at_end : (off : ℕ) → length b ≤ off → Strings (drop off b)
  at_end off h = go (drop off b) (omega (arith, length-drop off b))
    where
      go : (r : Bytes) → length r ≡ 0 → Strings r
      go [] e = no_strings
      go (x ∷ r) e = absurd (omega arith)

  too_long :
      (off n : ℕ)
      → off < length b
      → drop off b ≡ n ∷ drop (suc off) b
      → length b < off + 1 + n
      → Strings (drop off b)
      → ⊥
  too_long off n h cut long t =
      string-too_long n (drop (suc off) b) (omega (arith, length-drop (suc off) b)) (rw (sym cut) t)

  further :
      (off n : ℕ)
      → off < length b
      → drop off b ≡ n ∷ drop (suc off) b
      → off + 1 + n ≤ length b
      → Inv off
      → Inv (off + 1 + n)
  further off n h cut fits i =
      let (there, back) =
        string-fits n (drop (suc off) b) (omega (arith, length-drop (suc off) b)) in
      let same_rest : drop n (drop (suc off) b) ≡ drop (off + 1 + n) b =
        drop-drop (suc off) n b ∙ ap (λ k. drop k b) (omega arith) in
      record {
        inside = fits;
        same = (
          λ t. rw (sym same_rest) (there (rw (sym cut) (i.same.0 t))),
          λ t. i.same.1 (rw cut (back (rw same_rest t))),
        );
      }

  skip_string-Inv :
      (off : ℕ) → Inv off → Ensures (Progress Inv left Result (left off)) (skip_string b off)
  unfolding skip_string left
  skip_string-Inv off i =
      split_le (length b) off (λ e h. rw e (ensures (λ _. i.same.1 (at_end off h), λ _. refl)))
        λ e h. rw e (
          let (n, found, cut) = index-drop b off h in
          rw found (
            split_lt (length b) (off + 1 + n)
              (λ t long. rw t (
                ensures
                  (λ c. cc, λ strings. absurd (too_long off n h cut long (i.same.0 strings)))))
              λ t fits. rw t (ensures (further off n h cut fits i, omega arith))))

-- `validateTXT` always returns, and it accepts exactly the sequences of character strings.
pub validate_txt-Strings : (b : Bytes) → Ensures (λ v. (v ≡ true) ↔ Strings b) (validate_txt b)
unfolding validate_txt left
validate_txt-Strings b =
    Ensures-loop (Inv b) (left b) (skip_string b) (skip_string-Inv b) (length b + 1) 0 (omega arith)
      (record { inside = omega arith; same = (λ t. t, λ t. t) })
