-- ===== src/AndroidNsd/Lookup.antt =====
-- What `TXTValue` finds: the value of the first entry with the key.
use omnidiscover.Prelude.{
  ℕ, suc, ◌+◌, ◌-◌, ◌≤◌, ◌<◌, ◌≡◌, refl, sym, ap, ◌∙◌, Bool, true, false, [], ◌∷◌, ◌++◌, Option,
  none, some, ◌==◌, if◌then◌else◌, split_if, split_lt, split_le, length, take, drop, take-all,
  drop-all, drop-drop, length-take, length-drop, take-append-drop, Bytes, arith,
}
use omnidiscover.Go.{ret, Round, next, done, slice}
use omnidiscover.Go.Ensures.{
  Ensures, ensures, Ensures-loop, Ensures-mono, Progress, slice_lem, index-drop,
}
use omnidiscover.Model.{Service}
use omnidiscover.AndroidNsd.{index_byte, entry_value_of, look_entry, txt_value}

-- An entry is a key and, behind the first `=`, a value.
pub entry_key : Bytes → Bytes
entry_key [] = []
entry_key (x ∷ xs) = if x == b'=' then [] else x ∷ entry_key xs

pub entry_value : Bytes → Bytes
entry_value [] = []
entry_value (x ∷ xs) = if x == b'=' then xs else entry_value xs

-- What `bytes.IndexByte` says of an entry
data Parts (e : Bytes) : Option ℕ → Type 0 where
  no_value : entry_key e ≡ e → entry_value e ≡ [] → Parts e none
  with_value :
      (k : ℕ)
      → k < length e
      → entry_key e ≡ take k e
      → entry_value e ≡ drop (suc k) e
      → Parts e (some k)

index_byte-Parts : (e : Bytes) → Parts e (index_byte e b'=')
unfolding index_byte entry_key entry_value
index_byte-Parts [] = no_value refl refl
index_byte-Parts (x ∷ xs) =
    split_if (x == b'=') (λ t. rw t (with_value 0 (omega arith) (rw t) (rw t)))
      λ t. rw t (longer t (index_byte-Parts xs))
  where
    longer :
        {o : Option ℕ}
        → (x == b'=') ≡ false
        → Parts xs o
        → Parts (x ∷ xs) (elim o [ none ↦ none | some i ↦ some (i + 1) ])
    longer t (no_value k v) = no_value (rw t (ap (◌∷◌ x) k)) (rw t v)
    longer t (with_value i lt k v) =
        let next : i + 1 ≡ suc i = omega arith in
        with_value (i + 1) (omega arith) (rw (t, next) (ap (◌∷◌ x) k)) (rw (t, next) v)

rest_of :
    (entry : Bytes) (i : ℕ)
    → take (length entry - (i + 1)) (drop (i + 1) entry) ≡ drop (suc i) entry
rest_of entry i =
    let next : i + 1 ≡ suc i = omega arith in
    take-all (length entry - (i + 1)) (drop (i + 1) entry)
      (omega (arith, length-drop (i + 1) entry))
    ∙ ap (λ k. drop k entry) next

module _ (equal_fold : Bytes → Bytes → Bool) (key : Bytes) where
  -- The lookup in a record: it ends at the end, at an entry that is cut off, or at the first hit.
  pub data Find : Bytes → Option Bytes → Type 0 where
    at_end : {txt : Bytes} → txt ≡ [] → Find txt none
    cut_off :
        {txt : Bytes} (n : ℕ) (rest : Bytes) → txt ≡ n ∷ rest → length rest < n → Find txt none
    hit :
        {txt : Bytes} (entry rest : Bytes)
        → txt ≡ length entry ∷ entry ++ rest
        → equal_fold (entry_key entry) key ≡ true
        → Find txt (some (entry_value entry))
    miss :
        {txt : Bytes} {found : Option Bytes} (entry rest : Bytes)
        → txt ≡ length entry ∷ entry ++ rest
        → equal_fold (entry_key entry) key ≡ false
        → Find rest found
        → Find txt found

  -- What the entry decides, for the loop behind it
  Decides : Bytes → ℕ → Round ℕ (Option Bytes) → Type 0
  Decides entry off (next off') = (equal_fold (entry_key entry) key ≡ false) × (off' ≡ off)
  Decides entry off (done o) =
      (equal_fold (entry_key entry) key ≡ true) × (o ≡ some (entry_value entry))

  entry_value_of-Decides :
      (entry : Bytes) (off : ℕ) (o : Option ℕ)
      → Parts entry o
      → Ensures (Decides entry off) (entry_value_of equal_fold key entry off o)
  unfolding entry_value_of Decides
  entry_value_of-Decides entry off none (no_value k v) =
      let whole = slice_lem entry (length entry) (length entry) (omega arith) (omega arith) in
      let nothing : length entry - length entry ≡ 0 = omega arith in
      split_if (equal_fold entry key) (λ t. rw (t, whole, nothing) (ensures (rw k t, rw v)))
        λ t. rw t (ensures (rw k t, refl))
  entry_value_of-Decides entry off (some i) (with_value _ lt k v) =
      let name : slice entry 0 i ≡ ret (take i entry) =
        slice_lem entry 0 i (omega arith) (omega arith)
        ∙ ap (λ k. ret (take k entry)) (omega arith) in
      let value : slice entry (i + 1) (length entry) ≡ ret (drop (suc i) entry) =
        slice_lem entry (i + 1) (length entry) (omega arith) (omega arith)
        ∙ ap ret (rest_of entry i) in
      split_if (equal_fold (take i entry) key) (λ t. rw (name, t, value) (ensures (rw k t, rw v)))
        λ t. rw (name, t) (ensures (rw k t, refl))

  -- The loop at `off` finds what a lookup in the bytes behind finds.
  abbrev Leads : Bytes → ℕ → Type 0
  Leads txt off = (off ≤ length txt) × ((o : Option Bytes) → Find (drop off txt) o → Find txt o)

  entry-Progress :
      (txt : Bytes) (off n : ℕ)
      → Leads txt off
      → off + 1 + n ≤ length txt
      → drop off txt
        ≡ length (take n (drop (suc off) txt)) ∷ take n (drop (suc off) txt)
          ++ drop n (drop (suc off) txt)
      → (r : Round ℕ (Option Bytes)) → Decides (take n (drop (suc off) txt)) (off + 1 + n) r
      → Progress (Leads txt) (λ o. length txt - o) (Find txt) (length txt - off) r
  unfolding Decides
  entry-Progress txt off n (le, leads) fits split (next off') (other, same) =
      let behind : drop off' txt ≡ drop n (drop (suc off) txt) =
        ap (λ k. drop k txt) (same ∙ omega arith) ∙ sym (drop-drop (suc off) n txt) in
      (
        (omega (arith, same), λ o f. leads o (miss _ _ split other (rw behind at f))),
        omega (arith, same),
      )
  entry-Progress txt off n (le, leads) fits split (done o) (wanted, same) =
      rw same (leads _ (hit _ _ split wanted))

  look_entry-Progress :
      (txt : Bytes) (off : ℕ)
      → Leads txt off
      → Ensures
          (Progress (Leads txt) (λ o. length txt - o) (Find txt) (length txt - off))
          (look_entry equal_fold key txt off)
  unfolding look_entry
  look_entry-Progress txt off (le, leads) =
      split_le (length txt) off
        (λ e out. rw e (ensures (leads none (at_end (drop-all txt off out)))))
        λ e inside.
          let (n, found, parts) = index-drop txt off inside in
          let behind = length-drop (suc off) txt in
          rw (e, found)
            (split_lt (length txt) (off + 1 + n)
              (λ e' over. rw e' (
                ensures
                  (leads none (cut_off n (drop (suc off) txt) parts (omega (arith, behind))))))
              λ e' fits.
                let entry = take n (drop (suc off) txt) in
                let rest = drop n (drop (suc off) txt) in
                let size : length entry ≡ n =
                  omega (arith, length-take n (drop (suc off) txt), behind) in
                let split : drop off txt ≡ length entry ∷ entry ++ rest =
                  rw (size, take-append-drop n (drop (suc off) txt)) parts in
                let read : slice txt (off + 1) (off + 1 + n) ≡ ret entry =
                  (let gap : off + 1 + n - (off + 1) ≡ n = omega arith in
                    let next : off + 1 ≡ suc off = omega arith in
                    slice_lem txt (off + 1) (off + 1 + n) (omega arith) fits ∙ rw (gap, next)) in
                rw (e', read)
                  (Ensures-mono
                    (entry_value_of-Decides entry (off + 1 + n) (index_byte entry b'=')
                      (index_byte-Parts entry))
                    (entry-Progress txt off n (le, leads) fits split)))

-- TXTValue returns for every service, key and TXT bytes. An empty key finds nothing. For another, what
-- it finds is a lookup in the record from its start: the value of the first entry whose key, up to the
-- first `=`, folds to the wanted one, or nothing if the record ends, or an entry is cut off, before.
pub txt_value-Find :
    (equal_fold : Bytes → Bytes → Bool) (s : Service) (key : Bytes)
    → Ensures
        (λ o. if length key == 0 then (o ≡ none) else Find equal_fold key s.txt o)
        (txt_value equal_fold (some s) key)
unfolding txt_value
txt_value-Find equal_fold s key =
    split_if (length key == 0) (λ e. rw e (ensures refl))
      λ e. rw e (
        Ensures-mono
          (Ensures-loop (Leads equal_fold key s.txt) (λ off. length s.txt - off)
            (look_entry equal_fold key s.txt) (look_entry-Progress equal_fold key s.txt)
            (length s.txt + 1) 0 (omega arith) (omega arith, λ o f. f))
          (λ o f. f))
