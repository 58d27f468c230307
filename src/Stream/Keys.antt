-- ===== src/Stream/Keys.antt =====
-- The keys of the events that wait in the queue of stream.go.
use omnidiscover.Prelude.{
  ℕ, zero, suc, ◌≤◌, ◌≡◌, refl, sym, ◌∙◌, ap, Bool, true, false, ◌||◌, List, [], ◌∷◌, ◌++◌, none,
  some, split_if, length, drop, arith,
}
use omnidiscover.Model.{LinkKey, Event}
use omnidiscover.Model.Keys.{link_key_eq, link_key_eq_iff}
use omnidiscover.Stream.{Pending, find, put}

abbrev pub keys : Pending → List LinkKey
keys [] = []
keys ((k, e) ∷ p) = k ∷ keys p

unfoldable pub waits : LinkKey → List LinkKey → Bool
waits key [] = false
waits key (k ∷ ks) = link_key_eq k key || waits key ks

abbrev pub Distinct : List LinkKey → Type 0
Distinct [] = Unit
Distinct (k ∷ ks) = (waits k ks ≡ false) × Distinct ks

pub eq_refl : (k : LinkKey) → link_key_eq k k ≡ true
eq_refl k = (link_key_eq_iff k k).1 refl

pub Bool-same : (p q : Bool) → (p ≡ true → q ≡ true) → (q ≡ true → p ≡ true) → p ≡ q
Bool-same true true f g = refl
Bool-same true false f g = sym (f refl)
Bool-same false true f g = g refl
Bool-same false false f g = refl

pub or_false : (p q : Bool) → (p || q) ≡ false → (p ≡ false) × (q ≡ false)
or_false p q h = ground arith

pub link_key_eq_sym : (a b : LinkKey) → link_key_eq a b ≡ link_key_eq b a
link_key_eq_sym a b =
    Bool-same (link_key_eq a b) (link_key_eq b a)
      (λ t. (link_key_eq_iff b a).1 (sym ((link_key_eq_iff a b).0 t)))
      λ t. (link_key_eq_iff a b).1 (sym ((link_key_eq_iff b a).0 t))

pub find-waits : (key : LinkKey) (p : Pending) → find key p ≡ none → waits key (keys p) ≡ false
unfolding find waits
find-waits key [] h = refl
find-waits key ((k, e) ∷ p) h = ground (arith, find-waits key p)

pub put-new :
    (key : LinkKey) (e : Event) (p : Pending) → find key p ≡ none → put key e p ≡ p ++ (key, e) ∷ []
unfolding find put
put-new key e [] h = refl
put-new key e ((k, e') ∷ p) h = ground (arith, put-new key e p)

pub length-keys : (p : Pending) → length (keys p) ≡ length p
length-keys [] = refl
length-keys ((k, e) ∷ p) = ap suc (length-keys p)

pub keys-append :
    (p : Pending) (key : LinkKey) (e : Event) → keys (p ++ (key, e) ∷ []) ≡ keys p ++ key ∷ []
keys-append [] key e = refl
keys-append ((k, e') ∷ p) key e = ap (λ ks. k ∷ ks) (keys-append p key e)

pub keys-put :
    (key : LinkKey) (e e' : Event) (p : Pending)
    → find key p ≡ some e'
    → keys (put key e p) ≡ keys p
unfolding find put
keys-put key e e' [] h = cc
keys-put key e e' ((k, x) ∷ p) h =
    split_if (link_key_eq k key) (λ t. rw (t, (link_key_eq_iff k key).0 t) refl)
      λ t.
        let same : find key ((k, x) ∷ p) ≡ find key p = rw t refl in
        rw t (ap (λ ks. k ∷ ks) (keys-put key e e' p (sym same ∙ h)))

pub waits-append :
    (k key : LinkKey) (ks : List LinkKey)
    → waits k (ks ++ key ∷ []) ≡ (waits k ks || link_key_eq key k)
unfolding waits
waits-append k key [] = ground arith
waits-append k key (x ∷ ks) = ground (arith, waits-append k key ks)

pub Distinct-append :
    (key : LinkKey) (ks : List LinkKey)
    → Distinct ks
    → waits key ks ≡ false
    → Distinct (ks ++ key ∷ [])
unfolding waits
Distinct-append key [] d h = (refl, tt)
Distinct-append key (k ∷ ks) (w, d) h =
    let (apart, absent) = or_false (link_key_eq k key) (waits key ks) h in
    (rw (waits-append k key ks, w) (link_key_eq_sym key k ∙ apart), Distinct-append key ks d absent)

pub drop-append :
    {A : Type 0} (n : ℕ) (xs ys : List A) → n ≤ length xs → drop n (xs ++ ys) ≡ drop n xs ++ ys
drop-append zero xs ys h = refl
drop-append (suc n) [] ys h = absurd (omega arith)
drop-append (suc n) (x ∷ xs) ys h = drop-append n xs ys (omega arith)

pub drop-suc :
    {A : Type 0} (n : ℕ) (xs ys : List A) (x : A)
    → drop n xs ≡ x ∷ ys
    → (drop (suc n) xs ≡ ys) × (suc n ≤ length xs)
drop-suc zero [] ys x h = cc
drop-suc zero (y ∷ xs) ys x h = (cc, omega arith)
drop-suc (suc n) [] ys x h = cc
drop-suc (suc n) (y ∷ xs) ys x h = let (e, le) = drop-suc n xs ys x h in (e, omega arith)
