-- ===== src/Fusion/Services/Grown.antt =====
-- The first loop of `rebuildServices`: the services grow by the new names.
use mathlib.Core.Path.{fun_ext, subst}
use omnidiscover.Prelude.{
  ◌≡◌, refl, sym, ap, ◌∙◌, true, false, List, [], ◌∷◌, ◌++◌, ◌==◌, if◌then◌else◌, split_if, map,
  All, Bytes, equal, equal_iff, append-nil, append_assoc, arith,
}
use omnidiscover.Mdns.{type_ptr}
use omnidiscover.Model.{Service, no_service}
use omnidiscover.Fusion.Services.{DnsEntry, Buffer, named, store_ptr, ptr_step, ptr_loop}
use omnidiscover.Fusion.Services.Describe.{ptr_of, each, is_among, new_targets}
use omnidiscover.Fusion.Services.Named.{
  map-map, instances, Distinct, is_among-append, Distinct-append, update, map-update-absent,
  instances-update,
}
use omnidiscover.Fusion.Services.Names.{
  new_targets-other, new_targets-known, new_targets-skip, new_targets-new,
}
use omnidiscover.Fusion.Services.Loops.{map_id}
use omnidiscover.Fusion.Services.Round.{IsFresh, AfterPtr, ptr_step-AfterPtr}

abbrev IsDistinct : Buffer → Type 0
IsDistinct b = Distinct (instances b.live)

instances-append :
    (services : List Service) (s : Service)
    → instances (services ++ s ∷ []) ≡ instances services ++ s.instance_name ∷ []
instances-append [] s = refl
instances-append (x ∷ services) s = ap (◌∷◌ x.instance_name) (instances-append services s)

map-append_one {ℓ} :
    {A B : Type ℓ} (f : A → B) (xs : List A) (x : A) → map f (xs ++ x ∷ []) ≡ map f xs ++ f x ∷ []
map-append_one f [] x = refl
map-append_one f (y ∷ xs) x = ap (◌∷◌ (f y)) (map-append_one f xs x)

-- The services of the first loop: those there were, and those of the new names
abbrev ptr_services : List DnsEntry → List Service → List Service
ptr_services es live =
    map (each ptr_of es) live
    ++ map (λ n. each ptr_of es (named n no_service)) (new_targets (instances live) es)

-- What a PTR record does by itself to the services of other names
ptr_of-other :
    (e : DnsEntry) (es : List DnsEntry) (names : List Bytes)
    → All (λ m. equal m e.dns_record.target ≡ false) names
    → map (λ n. each ptr_of (e ∷ es) (named n no_service)) names
      ≡ map (λ n. each ptr_of es (named n no_service)) names
unfolding each
ptr_of-other e es [] h = refl
ptr_of-other e es (n ∷ names) h =
    let same : ptr_of e (named n no_service) ≡ named n no_service =
      split_if (e.dns_record.type == type_ptr) (λ t. rw (t, h.0) refl) λ t. rw t refl in
    rw (same, ptr_of-other e es names h.1)

map-each-update :
    (e : DnsEntry) (es : List DnsEntry) (services : List Service)
    → (e.dns_record.type == type_ptr) ≡ true
    → map (each ptr_of (e ∷ es)) services
      ≡ map (each ptr_of es) (map (update e.dns_record.target (store_ptr e)) services)
unfolding each
map-each-update e es services t =
    let updates : ptr_of e ≡ update e.dns_record.target (store_ptr e) = fun_ext (λ s. rw t refl) in
    sym (map-map (each ptr_of es) (ptr_of e) services)
    ∙ ap (λ g. map (each ptr_of es) (map g services)) updates

each-named :
    (e : DnsEntry) (es : List DnsEntry)
    → (e.dns_record.type == type_ptr) ≡ true
    → each ptr_of (e ∷ es) (named e.dns_record.target no_service)
      ≡ each ptr_of es (store_ptr e (named e.dns_record.target no_service))
unfolding each
each-named e es t =
    let itself = (equal_iff e.dns_record.target e.dns_record.target).1 refl in rw (t, itself) refl

each-skip :
    (e : DnsEntry) (es : List DnsEntry)
    → (e.dns_record.type == type_ptr) ≡ false
    → each ptr_of (e ∷ es) ≡ each ptr_of es
unfolding each
each-skip e es t = fun_ext (λ s. rw t refl)

-- A round of the first loop takes this part of the services on.
record Grows (e : DnsEntry) (b b' : Buffer) : Type 0 where
  services : (es : List DnsEntry) → ptr_services (e ∷ es) b.live ≡ ptr_services es b'.live
  distinct : IsDistinct b'
  fresh : All IsFresh b'.spare

update-Grows :
    (e : DnsEntry) (b b' : Buffer)
    → IsDistinct b
    → (e.dns_record.type == type_ptr) ≡ true
    → is_among (instances b.live) e.dns_record.target ≡ true
    → AfterPtr e b b' true
    → Grows e b b'
update-Grows e b b' d t a (written, fresh) =
    let name = e.dns_record.target in
    let seen = instances b.live in
    let same = instances-update name (store_ptr e) b.live (λ s. refl) in
    record {
      services = λ es.
          let others = ptr_of-other e es (new_targets seen es) (new_targets-other seen name es a) in
          rw (written, same, new_targets-known seen e es a, others, map-each-update e es b.live t)
            refl;
      distinct = rw (written, same) d;
      fresh = fresh;
    }

add-Grows :
    (e : DnsEntry) (b b' : Buffer)
    → IsDistinct b
    → (e.dns_record.type == type_ptr) ≡ true
    → is_among (instances b.live) e.dns_record.target ≡ false
    → AfterPtr e b b' false
    → Grows e b b'
add-Grows e b b' d t a (written, fresh) =
    let name = e.dns_record.target in
    let first = store_ptr e (named name no_service) in
    let seen = instances b.live in
    let kept = map-update-absent name (store_ptr e) b.live a in
    let names = instances-append b.live first in
    record {
      services = λ es.
          let more = new_targets (seen ++ name ∷ []) es in
          let itself = (equal_iff name name).1 refl in
          let present : is_among (seen ++ name ∷ []) name ≡ true =
            is_among-append seen name name ∙ ground (arith, itself) in
          let others =
            ptr_of-other e es more (new_targets-other (seen ++ name ∷ []) name es present) in
          let one = map-append_one (each ptr_of es) b.live first in
          rw
            (
              written,
              names,
              new_targets-new seen e es t a,
              map-each-update e es b.live t,
              kept,
              one,
              each-named e es t,
              others,
            )
            (sym (
              append_assoc (map (each ptr_of es) b.live) (each ptr_of es first ∷ [])
                (map (λ n. each ptr_of es (named n no_service)) more)));
      distinct = rw (written, names) (Distinct-append seen name d a);
      fresh = fresh;
    }

skip-Grows :
    (e : DnsEntry) (b : Buffer)
    → IsDistinct b
    → All IsFresh b.spare
    → (e.dns_record.type == type_ptr) ≡ false
    → Grows e b b
skip-Grows e b d h t = record {
  services = λ es. rw (each-skip e es t, new_targets-skip (instances b.live) e es t) refl;
  distinct = d;
  fresh = h;
}

ptr_round-Grows :
    (e : DnsEntry) (b : Buffer)
    → IsDistinct b
    → All IsFresh b.spare
    → Grows e b (if e.dns_record.type == type_ptr then ptr_step e b else b)
ptr_round-Grows e b d h =
    split_if (e.dns_record.type == type_ptr)
      (λ t.
        let after = ptr_step-AfterPtr e b d h in
        let grows : Grows e b (ptr_step e b) =
          split_if (is_among (instances b.live) e.dns_record.target)
            (λ a.
              update-Grows e b (ptr_step e b) d t a (subst (AfterPtr e b (ptr_step e b)) a after))
            λ a. add-Grows e b (ptr_step e b) d t a (subst (AfterPtr e b (ptr_step e b)) a after) in
        subst (λ c. Grows e b (if c then ptr_step e b else b)) (sym t) grows)
      λ t. subst (λ c. Grows e b (if c then ptr_step e b else b)) (sym t) (skip-Grows e b d h t)

-- What the first loop leaves
abbrev pub AfterLoop : List DnsEntry → Buffer → Buffer → Type 0
AfterLoop es b b' = (b'.live ≡ ptr_services es b.live) × IsDistinct b' × All IsFresh b'.spare

pub ptr_loop-AfterLoop :
    (es : List DnsEntry) (b : Buffer)
    → IsDistinct b
    → All IsFresh b.spare
    → AfterLoop es b (ptr_loop es b)
unfolding ptr_loop
ptr_loop-AfterLoop [] b d h =
    (sym (unfold each new_targets in (append-nil _ ∙ map_id b.live)), d, h)
ptr_loop-AfterLoop (e ∷ es) b d h =
    let grows = ptr_round-Grows e b d h in
    let (services, distinct, fresh) = ptr_loop-AfterLoop es _ grows.distinct grows.fresh in
    (services ∙ sym (grows.services es), distinct, fresh)
