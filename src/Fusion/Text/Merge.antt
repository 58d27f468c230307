-- ===== src/Fusion/Text/Merge.antt =====
-- `mergeText` of fusion.go keeps a text field well formed and its winner stable.
use omnidiscover.Prelude.{
  ℕ, zero, suc, ◌+◌, ◌≤◌, ◌<◌, ◌≡◌, ◌≢◌, ◌⊎◌, inl, inr, refl, sym, ap, ◌∙◌, Bool, true, false, List,
  [], ◌∷◌, ◌++◌, Option, none, some, split_if, split_lt, split_eq, length, length-append,
  length-set, get_or, set, arith, Bytes, ◌==◌, if◌then◌else◌,
}
use omnidiscover.Protocol.{ProtocolSet}
use omnidiscover.Model.{TextValue, TextField, no_value, Time}
use omnidiscover.Fusion.Text.{
  clean_text, text_rank, rank_at, select_canonical, confirm_value, new_value, find_text, is_weaker,
  weakest, replace_value, add_value, merge_found, merge_text,
}
use omnidiscover.Fusion.Text.Canonical.{Best, Selected, select_canonical-Selected}
use omnidiscover.Fusion.Text.Distinct.{
  texts, has, Distinct, get_or-set, get_or-set_other, get_or-append, texts-append, texts-set,
  set-same, Distinct-append, Distinct-set, find_text-none, find_text-some,
}

-- A field of at most `max` alternatives: no text twice, and the winner is one that none outranks.
pub record IsField (max : ℕ) (f : TextField) : Type 0 where
  pub few : length f.values ≤ max + 1
  pub distinct : Distinct (texts f.values)
  pub winner : 0 < length f.values → Best f.values f.canonical

-- The new winner has the old one's text, or a value that outranks the old one's.
abbrev pub Keeps : TextField → TextField → Type 0
Keeps f f' =
    0 < length f.values
    → ((get_or f'.values f'.canonical no_value).value
        ≡ (get_or f.values f.canonical no_value).value)
      ⊎ (rank_at f'.values f.canonical < rank_at f'.values f'.canonical)

abbrev pub Merged : ℕ → TextField → TextField → Type 0
Merged max f f' = IsField max f' × Keeps f f'

module _ (max : ℕ) (small : max ≤ 255) (f : TextField) (g : IsField max f) where
  Merged-same : Merged max f f
  Merged-same = (g, λ _. inl refl)

  -- New values whose old winner has the same text as before.
  select-Merged :
      (values : List TextValue)
      → 0 < length values
      → length values ≤ max + 1
      → Distinct (texts values)
      → (0 < length f.values → f.canonical < length values)
      → (0 < length f.values
          → (get_or values f.canonical no_value).value
            ≡ (get_or f.values f.canonical no_value).value)
      → Merged max f (select_canonical (record f { values = values }))
  select-Merged values some_values few distinct old same =
      from (select_canonical (record f { values = values }))
        (select_canonical-Selected (record f { values = values }) some_values (omega arith))
    where
      kept :
          (f' : TextField)
          → f'.values ≡ values
          → (0 < length f.values)
          → (f'.canonical ≡ f.canonical)
            ⊎ (rank_at values f.canonical < rank_at values f'.canonical)
          → ((get_or f'.values f'.canonical no_value).value
              ≡ (get_or f.values f.canonical no_value).value)
            ⊎ (rank_at f'.values f.canonical < rank_at f'.values f'.canonical)
      kept f' e some_old (inl c) = inl (rw (e, c) (same some_old))
      kept f' e some_old (inr lt) = inr (rw e lt)

      from : (f' : TextField) → Selected f.canonical values f' → Merged max f f'
      from f' s = (
        record {
          few = omega (arith, ap length s.same, few);
          distinct = rw s.same distinct;
          winner = λ _. rw s.same s.best;
        },
        λ some_old. kept f' s.same some_old (s.stable (old some_old)),
      )

  abbrev Other : Option ℕ → Type 0
  Other none = Unit
  Other (some r) = (r < length f.values) × (r ≢ f.canonical)

  Other-if :
      (c : Bool) (o p : Option ℕ)
      → (c ≡ true → Other o)
      → (c ≡ false → Other p)
      → Other (if c then o else p)
  Other-if true o p h h' = h refl
  Other-if false o p h h' = h' refl

  -- The loop finds an index in range, and never the winner's.
  weakest-Other :
      (left i : ℕ) (o : Option ℕ)
      → i + left ≡ length f.values
      → Other o
      → Other (weakest f.values f.canonical left i o)
  unfolding weakest
  weakest-Other zero i o e h = h
  weakest-Other (suc left) i o e h = weakest-Other left (i + 1) _ (omega arith) (
      Other-if (i == f.canonical) o _ (λ _. h)
        λ apart.
          Other-if (is_weaker f.values i o) (some i) o (λ _. (omega arith, λ c. ground arith))
            λ _. h)

  module _ (v : TextValue) (new : has (texts f.values) v.value ≡ false) where
    replace_value-Merged : (o : Option ℕ) → Other o → Merged max f (replace_value f v o).1
    unfolding replace_value
    replace_value-Merged none h = Merged-same
    replace_value-Merged (some r) (inside, other) =
        split_lt (text_rank v) (rank_at f.values r) (λ t _. rw t Merged-same)
          λ t _. rw t (
            select-Merged (set f.values r v) (omega (arith, length-set f.values r v))
              (omega (arith, length-set f.values r v, g.few))
              (rw (texts-set f.values r v) (Distinct-set (texts f.values) r v.value g.distinct new))
              (λ some_old. omega (arith, length-set f.values r v, (g.winner some_old).inside))
              (λ some_old.
                ap (λ (w : TextValue). w.value)
                  (get_or-set_other f.values r f.canonical v no_value (λ e. other (sym e)))))

    add_value-Merged : Merged max f (add_value f v (max + 1)).1
    unfolding add_value
    add_value-Merged =
        split_lt (length f.values) (max + 1)
          (λ t room. rw t (
            select-Merged (f.values ++ v ∷ []) (omega (arith, length-append f.values (v ∷ [])))
              (omega (arith, length-append f.values (v ∷ [])))
              (rw (texts-append f.values v)
                (Distinct-append (texts f.values) v.value g.distinct new))
              (λ some_old.
                omega (arith, length-append f.values (v ∷ []), (g.winner some_old).inside))
              (λ some_old.
                ap (λ (w : TextValue). w.value)
                  (get_or-append f.values (v ∷ []) f.canonical no_value
                    (g.winner some_old).inside))))
          λ t _.
            rw t (replace_value-Merged _ (weakest-Other (length f.values) 0 none (omega arith) tt))

  -- A value that is confirmed keeps its text.
  confirm-text :
      (i j : ℕ) (v : TextValue)
      → i < length f.values
      → v.value ≡ (get_or f.values i no_value).value
      → (get_or (set f.values i v) j no_value).value ≡ (get_or f.values j no_value).value
  confirm-text i j v inside e =
      split_eq j i
        (λ _ same.
          rw same (ap (λ (w : TextValue). w.value) (get_or-set f.values i v no_value inside) ∙ e))
        λ _ other. ap (λ (w : TextValue). w.value) (get_or-set_other f.values i j v no_value other)

  merge_found-Merged :
      (value : Bytes) (protocols : ProtocolSet) (confidence : ℕ) (now : Time) (o : Option ℕ)
      → find_text f.values value ≡ o
      → Merged max f (merge_found f value protocols confidence now max o).1
  unfolding merge_found confirm_value
  merge_found-Merged value protocols confidence now none e =
      add_value-Merged (new_value value protocols confidence now) (find_text-none f.values value e)
  merge_found-Merged value protocols confidence now (some i) e =
      let (inside, _) = find_text-some f.values value i e in
      let v : TextValue = confirm_value (get_or f.values i no_value) protocols confidence now in
      select-Merged (set f.values i v) (omega (arith, length-set f.values i v))
        (omega (arith, length-set f.values i v, g.few))
        (rw (texts-set f.values i v, set-same f.values i) g.distinct)
        (λ some_old. omega (arith, length-set f.values i v, (g.winner some_old).inside))
        (λ some_old. confirm-text i f.canonical v inside refl)

-- With at most 255 alternatives `mergeText` keeps a field well formed: it has at most one value more
-- than that, no text twice, and none of its values outranks the winner. The winner is stable: its text
-- stays unless another value outranks it.
pub merge_text-Merged :
    (max : ℕ) (f : TextField) (value : Bytes) (protocols : ProtocolSet) (confidence : ℕ)
    (now : Time)
    → max ≤ 255
    → IsField max f
    → Merged max f (merge_text f value protocols confidence now max).1
unfolding merge_text
merge_text-Merged max f value protocols confidence now small g =
    split_if (length (clean_text value) == 0) (λ t. rw t (Merged-same max small f g))
      λ t. rw t (
        merge_found-Merged max small f g (clean_text value) protocols confidence now
          (find_text f.values (clean_text value)) refl)
