-- ===== src/Mdns/Name/Total.antt =====
-- A run of `decodeDNSName` on any packet, and what it has read when it ends.
use omnidiscover.Prelude.{
  ℕ, ◌+◌, ◌-◌, ◌/◌, ◌≤◌, ◌<◌, ◌≡◌, refl, ◌∙◌, true, false, not, ◌||◌, [], ◌∷◌, ◌++◌, append-nil,
  Option, none, some, arith, ==_iff, ltb, ◌==◌, split_if, split_lt, split_le, length, length-append,
  Bytes, All, All-append, IsByte,
}
use omnidiscover.Go.Ensures.{
  Ensures, ensures, index-IsByte, slice-IsByte, be16_at-ret, Ensures-loop, Ensures-mono, Progress,
}
use omnidiscover.Go.{ret, index}
use omnidiscover.Mdns.Name.Labels.{
  ends, with_label, grow-name, with_label-dot, with_label-first, Spells-IsLabel, IsRead,
}
use omnidiscover.Protocol.{
  DecodeIssue, is_no_issue, no_issue, too_short, compression_loop, invalid_header, too_many_labels,
  too_large,
}
use omnidiscover.Mdns.Name.{
  max_dns_labels, max_dns_name_size, Name, Walk, follow, append_label, read_label, walk,
  decode_dns_name, or_else, refuse,
}
use omnidiscover.Mdns.Name.Reached.{Reached, jump-Reached, label-Reached}

-- A name is at most 255 bytes; without an issue the offset behind it lies in the packet and is
-- past the start, and with one the name is empty and the offset is the start.
pub record IsName (n start : ℕ) (r : Name) : Type 0 where
  pub bytes : All IsByte r.0
  pub size : length r.0 ≤ 255
  pub good : is_no_issue r.2 ≡ true → (start < r.1) × (r.1 ≤ n)
  pub bad : is_no_issue r.2 ≡ false → (r.0 ≡ []) × (r.1 ≡ start)

module _ (packet : Bytes) (a : All IsByte packet) (start : ℕ) where
  abbrev Behind : Walk → Option ℕ → Type 0
  Behind w none = (start ≤ w.off) × (w.jumps ≡ 0)
  Behind w (some m) = (start < m) × (m ≤ length packet)

  record Inv (w : Walk) : Type 0 where
    reached : Reached packet start w
    labels : w.labels ≤ 32
    jumps : w.jumps ≤ 32
    bytes : All IsByte w.dst
    size : length w.dst ≤ 255
    behind : Behind w w.after

  abbrev left : Walk → ℕ
  left w = 64 - (w.labels + w.jumps)

  abbrev Result : Name → Type 0
  Result r = IsName (length packet) start r × IsRead packet start r

  -- At the zero the labels are complete.
  end-IsRead :
      (w : Walk)
      → Inv w
      → index packet w.off ≡ ret 0
      → IsRead packet start (w.dst, or_else w.after (w.off + 1), no_issue)
  end-IsRead w i found good =
      let r = i.reached in
      let labels : r.read ++ [] ≡ r.read = append-nil r.read in
      let jumps : w.jumps + 0 ≡ w.jumps = omega arith in
      let spelt = rw (labels, jumps) at (r.leads 0 (w.off + 1) [] (ends found)) in
      (
        w.jumps,
        r.read,
        spelt,
        i.jumps,
        omega (arith, i.labels, r.counted),
        r.text ∙ grow-name r.read (Spells-IsLabel spelt),
      )

  refuse-Result :
      (m : ℕ) (issue : DecodeIssue)
      → is_no_issue issue ≡ false
      → Ensures (Progress Inv left Result m) (refuse start issue)
  refuse-Result m issue h =
      ensures (
        record { bytes = tt; size = omega arith; good = λ e. cc; bad = λ e. (refl, refl) },
        λ e. cc,
      )

  or_else-Behind :
      (w : Walk) (n : ℕ)
      → Behind w w.after
      → w.off < n
      → n ≤ length packet
      → (start < or_else w.after n) × (or_else w.after n ≤ length packet)
  or_else-Behind w n b h h' = go w.after b
    where
      go : (o : Option ℕ) → Behind w o → (start < or_else o n) × (or_else o n ≤ length packet)
      go none (le, _) = (omega arith, h')
      go (some m) c = c

  follow-Inv :
      (w : Walk) (size : ℕ)
      → Inv w
      → w.off < length packet
      → index packet w.off ≡ ret size
      → size / 64 ≡ 3
      → Ensures (Progress Inv left Result (left w)) (follow packet start w)
  unfolding follow
  follow-Inv w size i h found three =
      split_le (length packet) (w.off + 1) (λ e _. rw e (refuse-Result _ too_short refl))
        λ e fits.
          let (word, there, _) = be16_at-ret packet w.off (omega arith) a in
          rw (e, there)
            (split_lt max_dns_labels (w.jumps + 1)
              (λ t _. rw t (refuse-Result _ compression_loop refl))
              λ t few. rw t (
                ensures (
                  record {
                    reached =
                        jump-Reached packet start w size word i.reached found three (omega arith)
                          there;
                    labels = i.labels;
                    jumps = few;
                    bytes = i.bytes;
                    size = i.size;
                    behind = or_else-Behind w (w.off + 2) i.behind (omega arith) (omega arith);
                  },
                  omega (arith, i.labels),
                )))

  module _ (size : ℕ) (w : Walk) (i : Inv w) (h : w.off + 1 + size ≤ length packet)
      (few : w.labels + 1 ≤ 32) (found : index packet w.off ≡ ret size) (some_bytes : 1 ≤ size)
      (small : size ≤ 63) where
    append_label-Inv :
        (dst : Bytes)
        → All IsByte dst
        → ((l : Bytes) → dst ++ l ≡ with_label w.dst l)
        → Ensures (Progress Inv left Result (left w)) (append_label packet start size w dst)
    unfolding append_label
    append_label-Inv dst b joins =
        split_lt max_dns_name_size (length dst + size)
          (λ e _. rw e (refuse-Result _ too_large refl))
          λ e fits.
            let (l, there, n, b') =
              slice-IsByte packet (w.off + 1) (w.off + 1 + size) (omega arith) h a in
            let same : length l ≡ size = omega (arith, n) in
            let reached =
              label-Reached packet start w l i.reached (omega (arith, same), omega (arith, same))
                (rw same found) (omega (arith, same, h)) (rw same there) in
            rw (e, there)
              (ensures (
                record {
                  reached = rw (← same, joins l) reached;
                  labels = few;
                  jumps = i.jumps;
                  bytes = All-append IsByte dst l b b';
                  size = omega (arith, length-append {0} dst l, same);
                  behind = go w.after i.behind;
                },
                omega (arith, i.jumps),
              ))
      where
        go : (o : Option ℕ) → Behind w o → Behind (record w { off = w.off + (1 + size) }) o
        go none (le, z) = (omega arith, z)
        go (some m) c = c

  read_label-Inv :
      (size : ℕ) (w : Walk)
      → Inv w
      → index packet w.off ≡ ret size
      → 1 ≤ size
      → size ≤ 63
      → Ensures (Progress Inv left Result (left w)) (read_label packet start size w)
  unfolding read_label
  read_label-Inv size w i found some_bytes small =
      split_lt (length packet) (w.off + 1 + size) (λ e _. rw e (refuse-Result _ too_short refl))
        λ e fits. rw e (
          split_lt max_dns_labels (w.labels + 1)
            (λ t _. rw t (refuse-Result _ too_many_labels refl))
            λ t few. rw t (
              split_if (not (length w.dst == 0))
                (λ y. rw y (
                  split_lt max_dns_name_size (length w.dst + 1)
                    (λ z _. rw z (refuse-Result _ too_large refl))
                    λ z _. rw z (
                      append_label-Inv size w i fits few found some_bytes small (w.dst ++ b'.' ∷ [])
                        (All-append IsByte w.dst (b'.' ∷ []) i.bytes (omega arith))
                        (λ l. with_label-dot w.dst l (ground (arith, y))))))
                λ y. rw y (
                  append_label-Inv size w i fits few found some_bytes small w.dst i.bytes
                    (λ l. with_label-first w.dst l (ground (arith, y))))))

  walk-Inv : (w : Walk) → Inv w → Ensures (Progress Inv left Result (left w)) (walk packet start w)
  unfolding walk
  walk-Inv w i =
      split_le (length packet) w.off (λ e _. rw e (refuse-Result _ too_short refl))
        λ e inside.
          let (size, found, _) = index-IsByte packet w.off inside a in
          rw (e, found)
            (split_if (size == 0)
              (λ t. rw t (
                ensures (
                  record {
                    bytes = i.bytes;
                    size = i.size;
                    good = λ _. or_else-Behind w (w.off + 1) i.behind (omega arith) (omega arith);
                    bad = λ c. cc;
                  },
                  end-IsRead w i (rw (← (==_iff size 0).0 t) found),
                )))
              λ t. rw t (
                split_if (size / 64 == 3)
                  (λ y. rw y (follow-Inv w size i inside found ((==_iff (size / 64) 3).0 y)))
                  λ y. rw y (
                    split_if (not (size / 64 == 0) || ltb 63 size)
                      (λ z. rw z (refuse-Result _ invalid_header refl))
                      λ z.
                        rw z
                          (read_label-Inv size w i found (ground (arith, t)) (ground (arith, z))))))

pub decode_dns_name-IsRead :
    (packet : Bytes) (off : ℕ) (a : All IsByte packet)
    → Ensures (λ r. IsName (length packet) off r × IsRead packet off r) (decode_dns_name packet off)
unfolding decode_dns_name
decode_dns_name-IsRead packet off a =
    Ensures-loop (Inv packet a off) (left packet a off) (walk packet off) (walk-Inv packet a off) 65
      (record { off = off; after = none; labels = 0; jumps = 0; dst = [] }) (omega arith)
      (record {
        reached = record {
          read = [];
          text = refl;
          counted = refl;
          leads = λ jumps behind labels s.
              let none_yet : 0 + jumps ≡ jumps = omega arith in rw none_yet s;
        };
        labels = omega arith;
        jumps = omega arith;
        bytes = tt;
        size = omega arith;
        behind = omega arith;
      })

pub decode_dns_name-IsName :
    (packet : Bytes) (off : ℕ)
    → All IsByte packet
    → Ensures (IsName (length packet) off) (decode_dns_name packet off)
decode_dns_name-IsName packet off a = Ensures-mono (decode_dns_name-IsRead packet off a) λ r g. g.0
