-- ===== src/Mdns/Name/Reading.antt =====
-- `decodeDNSName` against the labels that a packet spells.
use omnidiscover.Prelude.{
  ℕ, zero, suc, ◌+◌, ◌/◌, ◌%◌, ◌≤◌, ◌<◌, ◌≡◌, refl, sym, ap, ◌∙◌, true, false, not, ◌||◌, List, [],
  ◌∷◌, ◌++◌, none, some, arith, ltb, leb, ◌==◌, split_if, length, length-append, Bytes, All, IsByte,
}
use omnidiscover.Go.{ret, next, done, loop, index, slice, be16_at}
use omnidiscover.Go.Ensures.{Ensures, ensures, Ensures-get, index-lt}
use omnidiscover.Protocol.{no_issue}
use omnidiscover.Mdns.Name.{
  Name, Walk, walk, follow, read_label, append_label, decode_dns_name, or_else, max_dns_labels,
  max_dns_name_size,
}
use omnidiscover.Mdns.Name.Labels.{
  Spells, ends, jump, label, IsLabel, name, grow, with_label, with_label-dot, with_label-first,
  grow-longer, grow-name, Spells-IsLabel, IsRead,
}
use omnidiscover.Mdns.Name.Total.{IsName, decode_dns_name-IsRead}
use omnidiscover.Mdns.Name.RoundTrip.{loop-next, loop-done}

module _ (packet : Bytes) (start : ℕ) where
  inside : (w : Walk) {size : ℕ} → index packet w.off ≡ ret size → leb (length packet) w.off ≡ false
  inside w found = ground (arith, index-lt packet w.off found)

  walk-ends :
      (w : Walk)
      → index packet w.off ≡ ret 0
      → walk packet start w ≡ ret (done (w.dst, or_else w.after (w.off + 1), no_issue))
  unfolding walk
  walk-ends w found = rw (inside w found, found) refl

  walk-jump :
      (w : Walk) (size word : ℕ)
      → index packet w.off ≡ ret size
      → size / 64 ≡ 3
      → w.off + 1 < length packet
      → be16_at packet w.off ≡ ret word
      → w.jumps + 1 ≤ 32
      → walk packet start w
        ≡ ret (
            next (record w {
              off = word % 0x4000;
              after = some (or_else w.after (w.off + 2));
              jumps = w.jumps + 1;
            }))
  unfolding walk follow
  walk-jump w size word found three fits there few =
      let some_bytes : size == 0 ≡ false = ground (arith, three) in
      let pointer : size / 64 == 3 ≡ true = ground (arith, three) in
      let room : leb (length packet) (w.off + 1) ≡ false = ground (arith, fits) in
      let counted : ltb max_dns_labels (w.jumps + 1) ≡ false = ground (arith, few) in
      rw (inside w found, found, some_bytes, pointer, room, there, counted) refl

  append_label-with_label :
      (w : Walk) (l dst : Bytes)
      → slice packet (w.off + 1) (w.off + 1 + length l) ≡ ret l
      → dst ++ l ≡ with_label w.dst l
      → length (with_label w.dst l) ≤ 255
      → append_label packet start (length l) w dst
        ≡ ret (
            next (record w {
              off = w.off + (1 + length l);
              labels = w.labels + 1;
              dst = with_label w.dst l;
            }))
  unfolding append_label
  append_label-with_label w l dst there joins fits =
      let room : ltb max_dns_name_size (length dst + length l) ≡ false =
        ground (arith, length-append dst l, ap length joins, fits) in
      rw (room, there, joins) refl

  walk-label :
      (w : Walk) (l : Bytes)
      → IsLabel l
      → index packet w.off ≡ ret (length l)
      → w.off + 1 + length l ≤ length packet
      → slice packet (w.off + 1) (w.off + 1 + length l) ≡ ret l
      → w.labels + 1 ≤ 32
      → length (with_label w.dst l) ≤ 255
      → walk packet start w
        ≡ ret (
            next (record w {
              off = w.off + (1 + length l);
              labels = w.labels + 1;
              dst = with_label w.dst l;
            }))
  unfolding walk read_label
  walk-label w l is found fits there few size =
      let some_bytes : length l == 0 ≡ false = ground (arith, is) in
      let no_pointer : length l / 64 == 3 ≡ false = ground (arith, is) in
      let plain : (not (length l / 64 == 0) || ltb 63 (length l)) ≡ false = ground (arith, is) in
      let room : ltb (length packet) (w.off + 1 + length l) ≡ false = ground (arith, fits) in
      let counted : ltb max_dns_labels (w.labels + 1) ≡ false = ground (arith, few) in
      rw (inside w found, found, some_bytes, no_pointer, plain, room, counted)
        (split_if (length w.dst == 0)
          (λ e. rw e (append_label-with_label w l w.dst there (with_label-first w.dst l e) size))
          λ e.
            let joins = with_label-dot w.dst l e in
            let dot : ltb max_dns_name_size (length w.dst + 1) ≡ false = ground (
              arith,
              length-append (w.dst ++ b'.' ∷ []) l,
              length-append w.dst (b'.' ∷ []),
              ap length joins,
              size,
            ) in
            rw (e, dot) (append_label-with_label w l (w.dst ++ b'.' ∷ []) there joins size))

  -- What the packet spells at `w.off` is read in as many rounds as there are labels and jumps, and one.
  loop-Spells :
      (rounds : ℕ) (w : Walk) {off jumps behind : ℕ} {labels : List Bytes}
      → Spells packet off jumps labels behind
      → w.off ≡ off
      → w.labels + length labels ≤ 32
      → w.jumps + jumps ≤ 32
      → length (grow w.dst labels) ≤ 255
      → jumps + length labels < rounds
      → loop rounds (walk packet start) w
        ≡ ret (grow w.dst labels, or_else w.after behind, no_issue)
  loop-Spells zero w s same few_labels few_jumps fits more = absurd (omega arith)
  loop-Spells (suc k) w (ends found) same few_labels few_jumps fits more =
      rw (← same) (loop-done (walk packet start) k w _ (walk-ends w (rw same found)))
  loop-Spells (suc k) w (jump size word found three room there s) same few_labels few_jumps fits
        more =
      rw (← same) (
        loop-next (walk packet start) k w _
          (walk-jump w size word (rw same found) three (rw same room) (rw same there) (omega arith))
        ∙ loop-Spells k _ s refl few_labels (omega arith) fits (omega arith))
  loop-Spells (suc k) w (label {labels = ls} l is found room there s) same few_labels few_jumps fits
        more =
      loop-next (walk packet start) k w _ (
        walk-label w l is (rw same found) (rw same room) (rw same there) (omega arith)
          (omega (arith, fits, grow-longer (with_label w.dst l) ls)))
      ∙ loop-Spells k _ s (rw same refl) (omega arith) few_jumps fits (omega arith)

-- What the packet spells within the limits is read.
abbrev pub IsComplete : Bytes → ℕ → Name → Type 0
IsComplete packet start r =
    (jumps behind : ℕ) (labels : List Bytes)
    → Spells packet start jumps labels behind
    → jumps ≤ 32
    → length labels ≤ 32
    → length (name labels) ≤ 255
    → r ≡ (name labels, behind, no_issue)

decode_dns_name-Spells :
    (packet : Bytes) (start : ℕ) {jumps behind : ℕ} {labels : List Bytes}
    → Spells packet start jumps labels behind
    → jumps ≤ 32
    → length labels ≤ 32
    → length (name labels) ≤ 255
    → decode_dns_name packet start ≡ ret (name labels, behind, no_issue)
unfolding decode_dns_name
decode_dns_name-Spells packet start {behind = behind} {labels = labels} s few_jumps few_labels
      fits =
    let same = grow-name labels (Spells-IsLabel s) in
    loop-Spells packet start 65
      (record { off = start; after = none; labels = 0; jumps = 0; dst = [] }) s refl
      (omega (arith, few_labels)) (omega (arith, few_jumps)) (omega (arith, ap length same, fits))
      (omega (arith, few_labels, few_jumps))
    ∙ ap (λ n. ret (n, behind, no_issue)) same

ret-injective : {A : Type 0} {x y : A} → ret x ≡ ret y → x ≡ y
ret-injective h = cc

-- On any packet of bytes and at any offset decodeDNSName returns, whatever loop its compression pointers
-- make. It reports no issue exactly if the packet spells labels there, through pointers, with at most 32
-- labels, at most 32 pointers, and at most 255 bytes with dots between; the name is then that of the
-- labels, and the offset that behind them, or behind the first pointer: past the start and in the
-- packet. With an issue the name is empty and the offset is the start.
pub decode_dns_name-IsComplete :
    (packet : Bytes) (off : ℕ)
    → All IsByte packet
    → Ensures
        (λ r. IsName (length packet) off r × IsRead packet off r × IsComplete packet off r)
        (decode_dns_name packet off)
decode_dns_name-IsComplete packet off a =
    let (r, e, good) = Ensures-get (decode_dns_name-IsRead packet off a) in
    rw e (
      ensures (
        good.0,
        good.1,
        λ jumps behind labels s few_jumps few_labels fits.
            ret-injective (sym e ∙ decode_dns_name-Spells packet off s few_jumps few_labels fits),
      ))
