-- ===== src/Fusion/Services/Named.antt =====
-- Services of different names: what is written to the one of a name is written to those that have it.
use omnidiscover.Prelude.{
  ℕ, suc, ◌≡◌, refl, sym, ap, ◌∙◌, true, false, ◌||◌, List, [], ◌∷◌, ◌++◌, Option, none, some,
  if◌then◌else◌, split_if, length, map, All, Bytes, equal, equal_iff, arith,
}
use omnidiscover.Model.{Service}
use omnidiscover.Fusion.Services.{find_service, modify, at_service}
use omnidiscover.Fusion.Services.Describe.{is_among}

pub map-map {ℓ} :
    {A B C : Type ℓ} (g : B → C) (f : A → B) (xs : List A)
    → map g (map f xs) ≡ map (λ x. g (f x)) xs
map-map g f [] = refl
map-map g f (x ∷ xs) = ap (◌∷◌ (g (f x))) (map-map g f xs)

pub map_cong {ℓ} :
    {A B : Type ℓ} (f g : A → B) (xs : List A) → All (λ x. f x ≡ g x) xs → map f xs ≡ map g xs
map_cong f g [] h = refl
map_cong f g (x ∷ xs) h = rw (h.0, map_cong f g xs h.1)

abbrev pub instances : List Service → List Bytes
instances services = map (λ (s : Service). s.instance_name) services

abbrev pub Distinct : List Bytes → Type 0
Distinct [] = Unit
Distinct (n ∷ ns) = (is_among ns n ≡ false) × Distinct ns

pub equal_comm : (xs ys : Bytes) → equal xs ys ≡ equal ys xs
unfolding equal
equal_comm [] [] = refl
equal_comm [] (y ∷ ys) = refl
equal_comm (x ∷ xs) [] = refl
equal_comm (x ∷ xs) (y ∷ ys) = ground (arith, equal_comm xs ys)

pub is_among-append :
    (ns : List Bytes) (n m : Bytes) → is_among (ns ++ n ∷ []) m ≡ (is_among ns m || equal n m)
is_among-append [] n m = ground arith
is_among-append (x ∷ ns) n m = ground (arith, is_among-append ns n m)

pub Distinct-append :
    (ns : List Bytes) (n : Bytes) → Distinct ns → is_among ns n ≡ false → Distinct (ns ++ n ∷ [])
Distinct-append [] n d h = (refl, tt)
Distinct-append (x ∷ ns) n d h = (
  ground (arith, d.0, h, is_among-append ns n x, equal_comm x n),
  Distinct-append ns n d.1 (ground (arith, h)),
)

module _ (n : Bytes) (f : Service → Service) where
  -- What is written to the services of the name
  abbrev pub update : Service → Service
  update s = if equal s.instance_name n then f s else s

  pub map-update-absent :
      (services : List Service)
      → is_among (instances services) n ≡ false
      → map update services ≡ services
  map-update-absent [] h = refl
  map-update-absent (s ∷ services) h =
      split_if (equal s.instance_name n) (λ e. let bad = rw e at h in cc)
        λ e. rw e (ap (◌∷◌ s) (map-update-absent services (rw e at h)))

  at_next :
      (o : Option ℕ) (s : Service) (services : List Service)
      → at_service (elim o [ none ↦ none | some i ↦ some (suc i) ]) f (s ∷ services)
        ≡ s ∷ at_service o f services
  unfolding modify
  at_next none s services = refl
  at_next (some i) s services = refl

  pub at_service-update :
      (services : List Service)
      → Distinct (instances services)
      → at_service (find_service services n) f services ≡ map update services
  unfolding find_service modify
  at_service-update [] d = refl
  at_service-update (s ∷ services) d =
      split_if (equal s.instance_name n)
        (λ e.
          let same : s.instance_name ≡ n = (equal_iff _ _).0 e in
          rw e (ap (◌∷◌ (f s)) (sym (map-update-absent services (rw same at d.0)))))
        λ e. rw e (
          at_next (find_service services n) s services
          ∙ ap (◌∷◌ s) (at_service-update services d.1))

  pub instances-update :
      (services : List Service)
      → ((s : Service) → (f s).instance_name ≡ s.instance_name)
      → instances (map update services) ≡ instances services
  instances-update [] h = refl
  instances-update (s ∷ services) h =
      let rest = instances-update services h in
      split_if (equal s.instance_name n) (λ e. rw (e, h s, rest)) λ e. rw (e, rest)

pub find_service-none :
    (services : List Service) (n : Bytes)
    → is_among (instances services) n ≡ false
    → find_service services n ≡ none
unfolding find_service
find_service-none [] n h = refl
find_service-none (s ∷ services) n h =
    split_if (equal s.instance_name n) (λ e. let bad = rw e at h in cc)
      λ e. rw (e, find_service-none services n (rw e at h))

pub find_service-some :
    (services : List Service) (n : Bytes)
    → is_among (instances services) n ≡ true
    → (i : ℕ) × (find_service services n ≡ some i)
unfolding find_service
find_service-some [] n h = cc
find_service-some (s ∷ services) n h =
    split_if (equal s.instance_name n) (λ e. rw e (0, refl))
      λ e. let (i, found) = find_service-some services n (rw e at h) in rw (e, found) (suc i, refl)

pub modify-length :
    (f : Service → Service) (services : List Service) (s : Service)
    → modify (length services) f (services ++ s ∷ []) ≡ services ++ f s ∷ []
unfolding modify
modify-length f [] s = refl
modify-length f (x ∷ services) s = ap (◌∷◌ x) (modify-length f services s)
