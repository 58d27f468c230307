-- ===== src/Mdns/Name/Reached.antt =====
-- What a run of `decodeDNSName` has read on its way.
use omnidiscover.Prelude.{
  ℕ, suc, ◌+◌, ◌/◌, ◌%◌, ◌≤◌, ◌<◌, ◌≡◌, sym, ap, ◌∙◌, List, [], ◌∷◌, ◌++◌, append_assoc, some,
  arith, length, length-append, Bytes,
}
use omnidiscover.Go.{ret, index, slice, be16_at}
use omnidiscover.Mdns.Name.Labels.{Spells, jump, label, IsLabel, grow, with_label, grow-append}
use omnidiscover.Mdns.Name.{Walk, or_else}

module _ (packet : Bytes) (start : ℕ) where
  -- What was read on the way: labels that stand in front of those at `w.off`
  pub record Reached (w : Walk) : Type 0 where
    pub read : List Bytes
    pub text : w.dst ≡ grow [] read
    pub counted : w.labels ≡ length read
    pub leads :
        (jumps behind : ℕ) (labels : List Bytes)
        → Spells packet w.off jumps labels behind
        → Spells packet start (w.jumps + jumps) (read ++ labels) (or_else w.after behind)

  -- Behind a pointer, and behind a label
  pub jump-Reached :
      (w : Walk) (size word : ℕ)
      → Reached w
      → index packet w.off ≡ ret size
      → size / 64 ≡ 3
      → w.off + 1 < length packet
      → be16_at packet w.off ≡ ret word
      → Reached (record w {
        off = word % 0x4000;
        after = some (or_else w.after (w.off + 2));
        jumps = w.jumps + 1;
      })
  jump-Reached w size word r found three inside there = record {
    read = r.read;
    text = r.text;
    counted = r.counted;
    leads = λ jumps behind labels s.
        let more : w.jumps + suc jumps ≡ w.jumps + 1 + jumps = omega arith in
        rw more at
          (r.leads (suc jumps) (w.off + 2) labels (jump size word found three inside there s));
  }

  pub label-Reached :
      (w : Walk) (l : Bytes)
      → Reached w
      → IsLabel l
      → index packet w.off ≡ ret (length l)
      → w.off + 1 + length l ≤ length packet
      → slice packet (w.off + 1) (w.off + 1 + length l) ≡ ret l
      → Reached (record w {
        off = w.off + (1 + length l);
        labels = w.labels + 1;
        dst = with_label w.dst l;
      })
  label-Reached w l r is found fits there = record {
    read = r.read ++ l ∷ [];
    text = ap (λ d. with_label d l) r.text ∙ sym (grow-append [] r.read l);
    counted = omega (arith, r.counted, length-append r.read (l ∷ []));
    leads = λ jumps behind labels s.
        let whole = append_assoc r.read (l ∷ []) labels in
        rw (sym whole) at (r.leads jumps behind (l ∷ labels) (label l is found fits there s));
  }
