-- ===== src/Mdns/Name/RoundTrip.antt =====
-- `decodeDNSName` of mdns.go reads back a name that is written without compression.
use omnidiscover.Prelude.{
  ℕ, zero, suc, ◌+◌, ◌-◌, ◌/◌, ◌≤◌, ◌<◌, ◌≡◌, refl, sym, ap, ◌∙◌, false, not, ◌||◌, List, [], ◌∷◌,
  ◌++◌, append_assoc, none, arith, ltb, leb, ◌==◌, length, length-append, take, drop, Bytes, All,
}
use omnidiscover.Go.{Go, ret, next, done, Round, loop, index, slice}
use omnidiscover.Go.Ensures.{slice_lem}
use omnidiscover.Protocol.{no_issue}
use omnidiscover.Mdns.Name.Labels.{name, IsLabel, with_label, grow, grow-longer, grow-name}
use omnidiscover.Mdns.Name.{
  Walk, decode_dns_name, walk, read_label, append_label, max_dns_labels, max_dns_name_size,
}

-- The labels on the wire: each behind its length, and a zero at the end.
abbrev pub encode : List Bytes → Bytes
encode [] = 0 ∷ []
encode (l ∷ ls) = length l ∷ l ++ encode ls

index-append : (pre ys : Bytes) (x : ℕ) → index (pre ++ x ∷ ys) (length pre) ≡ ret x
unfolding index
index-append [] ys x = refl
index-append (p ∷ pre) ys x = index-append pre ys x

drop-behind : (pre ys : Bytes) (x : ℕ) → drop (suc (length pre)) (pre ++ (x ∷ ys)) ≡ ys
drop-behind [] ys x = refl
drop-behind (p ∷ pre) ys x = drop-behind pre ys x

take-append : (l ys : Bytes) → take (length l) (l ++ ys) ≡ l
take-append [] ys = refl
take-append (x ∷ l) ys = ap (λ t. x ∷ t) (take-append l ys)

-- The label behind its length.
slice-label :
    (pre l ys : Bytes) (x : ℕ)
    → slice (pre ++ (x ∷ (l ++ ys))) (length pre + 1) (length pre + 1 + length l) ≡ ret l
slice-label pre l ys x =
    slice_lem (pre ++ (x ∷ (l ++ ys))) (length pre + 1) (length pre + 1 + length l) (omega arith)
      (omega (arith, length-append pre (x ∷ (l ++ ys)), length-append l ys))
    ∙ ap (λ t. ret t)
        (let size : length pre + 1 + length l - (length pre + 1) ≡ length l = omega arith in
          let place : length pre + 1 ≡ suc (length pre) = omega arith in
          ap (λ n. take n (drop (length pre + 1) (pre ++ (x ∷ (l ++ ys))))) size
          ∙ ap (λ n. take (length l) (drop n (pre ++ (x ∷ (l ++ ys))))) place
          ∙ ap (take (length l)) (drop-behind pre (l ++ ys) x)
          ∙ take-append l ys)

module _ {S R : Type 0} (body : S → Go (Round S R)) where
  pub loop-next : (k : ℕ) (s s' : S) → body s ≡ ret (next s') → loop (suc k) body s ≡ loop k body s'
  unfolding loop
  loop-next k s s' h = rw h refl

  pub loop-done : (k : ℕ) (s : S) (r : R) → body s ≡ ret (done r) → loop (suc k) body s ≡ ret r
  unfolding loop
  loop-done k s r h = rw h refl

abbrev at : ℕ → ℕ → Bytes → Walk
at off labels dst = record { off = off; after = none; labels = labels; jumps = 0; dst = dst }

module _ (start : ℕ) (pre rest : Bytes) where
  walk-end :
      (labels : ℕ) (acc : Bytes)
      → walk (pre ++ (0 ∷ rest)) start (at (length pre) labels acc)
        ≡ ret (done (acc, length pre + 1, no_issue))
  unfolding walk
  walk-end labels acc =
      let size = length-append pre (0 ∷ rest) in
      let inside : leb (length (pre ++ (0 ∷ rest))) (length pre) ≡ false = ground (arith, size) in
      rw (inside, index-append pre rest 0) refl

  module _ (labels : ℕ) (l : Bytes) (is : IsLabel l) (few : labels < 32) where
    abbrev packet : Bytes
    packet = pre ++ (length l ∷ (l ++ rest))

    append_label-appends :
        (w : Walk) (acc : Bytes)
        → w.off ≡ length pre
        → length acc + length l ≤ 255
        → append_label packet start (length l) w acc
          ≡ ret (
              next
                (record w { off = w.off + (1 + length l); labels = w.labels + 1; dst = acc ++ l }))
    unfolding append_label
    append_label-appends w acc e fits =
        let room : ltb 255 (length acc + length l) ≡ false = ground arith in
        let found : slice packet (w.off + 1) (w.off + 1 + length l) ≡ ret l =
          rw e (slice-label pre l rest (length l)) in
        rw (room, found) refl

    room : ltb (length packet) (length pre + 1 + length l) ≡ false
    room = ground (arith, length-append pre (length l ∷ (l ++ rest)), length-append l rest)

    counted : ltb max_dns_labels (labels + 1) ≡ false
    counted = ground arith

    read_label-reads :
        (acc : Bytes)
        → length (with_label acc l) ≤ 255
        → read_label packet start (length l) (at (length pre) labels acc)
          ≡ ret (next (at (length pre + (1 + length l)) (labels + 1) (with_label acc l)))
    unfolding read_label
    read_label-reads [] fits =
        rw (room, counted)
          (append_label-appends (at (length pre) labels []) [] refl (omega (arith, fits)))
    read_label-reads (c ∷ acc) fits =
        let sizes = length-append ((c ∷ acc) ++ b'.' ∷ []) l in
        let dot = length-append (c ∷ acc) (b'.' ∷ []) in
        let some_text : length (c ∷ acc) == 0 ≡ false = ground arith in
        let dot_fits : ltb max_dns_name_size (length (c ∷ acc) + 1) ≡ false =
          ground (arith, sizes, dot, fits) in
        rw (room, counted, some_text, dot_fits)
          (append_label-appends (at (length pre) labels (c ∷ acc)) ((c ∷ acc) ++ b'.' ∷ []) refl
            (omega (arith, sizes, fits)))

    walk-label :
        (acc : Bytes)
        → length (with_label acc l) ≤ 255
        → walk packet start (at (length pre) labels acc)
          ≡ ret (next (at (length pre + (1 + length l)) (labels + 1) (with_label acc l)))
    unfolding walk
    walk-label acc fits =
        let size = length-append pre (length l ∷ (l ++ rest)) in
        let inside : leb (length packet) (length pre) ≡ false = ground (arith, size) in
        let some_bytes : length l == 0 ≡ false = ground arith in
        let no_pointer : length l / 64 == 3 ≡ false = ground arith in
        let plain : (not (length l / 64 == 0) || ltb 63 (length l)) ≡ false = ground arith in
        rw (inside, index-append pre (l ++ rest) (length l), some_bytes, no_pointer, plain)
          (read_label-reads acc fits)

reads :
    (packet : Bytes) (start : ℕ) (rest : Bytes) (ls : List Bytes) (pre acc : Bytes)
    (labels rounds : ℕ)
    → packet ≡ pre ++ (encode ls ++ rest)
    → All IsLabel ls
    → labels + length ls ≤ 32
    → length (grow acc ls) ≤ 255
    → length ls < rounds
    → loop rounds (walk packet start) (at (length pre) labels acc)
      ≡ ret (grow acc ls, length pre + length (encode ls), no_issue)
reads packet start rest ls pre acc labels zero e all few fits some_rounds = absurd (omega arith)
reads packet start rest [] pre acc labels (suc rounds) e all few fits some_rounds = rw e (
    loop-done (walk (pre ++ (0 ∷ rest)) start) rounds (at (length pre) labels acc) _
      (walk-end start pre rest labels acc))
reads packet start rest (l ∷ ls) pre acc labels (suc rounds) e all few fits some_rounds =
    let whole : packet ≡ pre ++ (length l ∷ (l ++ (encode ls ++ rest))) =
      e ∙ ap (λ t. pre ++ (length l ∷ t)) (append_assoc l (encode ls) rest) in
    let one : walk packet start (at (length pre) labels acc)
        ≡ ret (next (at (length pre + (1 + length l)) (labels + 1) (with_label acc l))) =
      rw whole (
        walk-label start pre (encode ls ++ rest) labels l all.0 (omega arith) acc
          (omega (arith, grow-longer (with_label acc l) ls))) in
    let size : length (pre ++ (length l ∷ l)) ≡ length pre + (1 + length l) =
      omega (arith, length-append pre (length l ∷ l)) in
    let again =
      reads packet start rest ls (pre ++ (length l ∷ l)) (with_label acc l) (labels + 1) rounds
        (whole ∙ sym (append_assoc pre (length l ∷ l) (encode ls ++ rest))) all.1 (omega arith) fits
        (omega arith) in
    let ends : length (pre ++ (length l ∷ l)) + length (encode ls)
        ≡ length pre + length (encode (l ∷ ls)) =
      omega (arith, size, length-append l (encode ls)) in
    loop-next (walk packet start) rounds (at (length pre) labels acc) _ one
    ∙ ap (λ n. loop rounds (walk packet start) (at n (labels + 1) (with_label acc l))) (sym size)
    ∙ again
    ∙ ap (λ n. ret (grow acc (l ∷ ls), n, no_issue)) ends

-- Of at most 32 labels of 1 to 63 bytes, written one behind the other with a zero at the end, whose
-- name with dots between has at most 255 bytes, `decodeDNSName` reads that name, wherever in a packet
-- they stand, and the offset behind the zero, without an issue.
pub decode_dns_name-encode :
    (pre rest : Bytes) (ls : List Bytes)
    → All IsLabel ls
    → length ls ≤ 32
    → length (name ls) ≤ 255
    → decode_dns_name (pre ++ (encode ls ++ rest)) (length pre)
      ≡ ret (name ls, length pre + length (encode ls), no_issue)
unfolding decode_dns_name
decode_dns_name-encode pre rest ls all few fits =
    let same = grow-name ls all in
    reads (pre ++ (encode ls ++ rest)) (length pre) rest ls pre [] 0 65 refl all
      (omega (arith, few)) (omega (arith, ap length same, fits)) (omega (arith, few))
    ∙ ap (λ n. ret (n, length pre + length (encode ls), no_issue)) same
