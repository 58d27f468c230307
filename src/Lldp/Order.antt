-- ===== src/Lldp/Order.antt =====
-- What a PDU has that `DecodeLLDPDU` accepts.
pub mod Chain
mod Sizes
use omnidiscover.Prelude.{
  ℕ, zero, suc, ◌+◌, ◌-◌, ◌/◌, ◌%◌, ◌≤◌, ◌<◌, ◌≡◌, ◌⊎◌, inl, inr, refl, sym, ◌∙◌, ap, Bool, true,
  false, not, ◌&&◌, ◌||◌, List, [], ◌∷◌, ◌++◌, Option, none, some, arith, ltb, leb, ◌==◌,
  if◌then◌else◌, split_if, split_lt, split_eq, length, length-append, replicate, get_or, Bytes, All,
  IsByte,
}
use omnidiscover.Go.{Go, ret, next, done, be16_at, index, slice, write}
use omnidiscover.Go.Ensures.{
  Ensures, ensures, Ensures-bind, Ensures-both, Ensures-index, Ensures-slice, Ensures-be16,
  be16_at-ret, slice-IsByte, index-ret, write-ret, Ensures-loop, Progress,
}
use omnidiscover.Protocol.{
  DecodeStatus, DecodeIssue, DecodeSeverity, partial, add_issue, fatal, clean, ignored, usable,
  too_large, invalid_tlv_length, missing_end, truncated_tlv, invalid_mandatory_order, no_status,
  nil_destination,
}
use omnidiscover.Protocol.Issues.{usable-fatal}
use omnidiscover.Ethernet.{Decoded, fail}
use omnidiscover.Lldp.Message.{Identifier, LldpMessage, reset}
use omnidiscover.Lldp.Total.{reset-IsMessage}
use omnidiscover.Lldp.Total.Tlv.{IsMessage, decode_tlv-Good}
use omnidiscover.Lldp.{
  Scan, Valid, start, store_tlv, scan_tlv, scan, decode_lldpdu_into, decode_lldpdu, max_lldpdu_size,
  is_lldp_singleton, decode_tlv, identifier_of, set_chassis_id, set_port_id, decode_ttl,
}
use Chain.{
  TlvAt, Tlvs, no_tlvs, more_tlvs, Fits, Mandatory, Accepts, Mandatory-append, Counts,
  mandatory_next, Counts-next, read_all, write-index, index-replicate, TlvAt-moves, empty_value,
  counted_few, is_mandatory,
}
use Sizes.{ValidFits, decode_tlv-Fits}

module _ (pdu : Bytes) (a : All IsByte pdu) where
  record Inv (s : Scan) : Type 0 where
    off : s.off ≤ length pdu
    message : IsMessage s.dst
    seen : length s.seen ≡ 128
    fresh : s.mandatory < 3 → (j : ℕ) → s.mandatory < j → j < 128 → index s.seen j ≡ ret false
    tlvs : List (ℕ × Bytes)
    read : Tlvs pdu tlvs s.off
    mandatory : Mandatory 0 tlvs
    count : Counts s.mandatory (length tlvs)

  abbrev Result : Decoded LldpMessage → Type 0
  Result r = usable r.1 ≡ true → Accepts pdu

  abbrev left : Scan → ℕ
  left s = length pdu - s.off

  refused :
      (dst : LldpMessage) (st : DecodeStatus) (code : DecodeIssue) (off typ : ℕ)
      → Result (dst, add_issue st fatal code off typ)
  refused dst st code off typ c =
      let never : usable (add_issue st fatal code off typ) ≡ false = usable-fatal st code off typ in
      cc

  -- A round: the scan stands at a TLV, which is of the expected type if it is mandatory.
  module _ (s : Scan) (i : Inv s) (typ size : ℕ) (value : Bytes) (b : All IsByte value)
      (fits : s.off + 2 + size ≤ length pdu) (small : typ < 128) (e : length value ≡ size)
      (t : TlvAt pdu s.off typ value) (expected : s.mandatory < 3 → typ ≡ s.mandatory + 1) where
    abbrev counted : ℕ
    counted = if ltb s.mandatory 3 then s.mandatory + 1 else s.mandatory

    abbrev behind : List Bool → LldpMessage → DecodeStatus → Scan
    behind seen dst st = record {
      off = s.off + 2 + size;
      mandatory = counted;
      seen = seen;
      dst = dst;
      st = st;
    }

    behind-Inv :
        (seen : List Bool) (dst : LldpMessage) (st : DecodeStatus)
        → length seen ≡ 128
        → IsMessage dst
        → (counted < 3 → (j : ℕ) → counted < j → j < 128 → index seen j ≡ ret false)
        → (s.mandatory < 3 → Fits (s.mandatory + 1) value)
        → Inv (behind seen dst st)
    behind-Inv seen dst st n g fresh f = record {
      off = fits;
      message = g;
      seen = n;
      fresh = fresh;
      tlvs = i.tlvs ++ (typ, value) ∷ [];
      read = rw (sym e) (more_tlvs typ value i.read t);
      mandatory =
          Mandatory-append 0 i.tlvs typ value i.mandatory
            (mandatory_next s.mandatory (length i.tlvs) typ value i.count expected f);
      count =
          rw (length-append i.tlvs ((typ, value) ∷ []))
            (Counts-next s.mandatory (length i.tlvs) i.count);
    }

    -- Behind a TLV that is not there to be stored.
    skips :
        (dst : LldpMessage) (st : DecodeStatus)
        → IsMessage dst
        → (s.mandatory < 3 → ⊥)
        → Inv (behind s.seen dst st)
    skips dst st g done' =
        behind-Inv s.seen dst st i.seen g
          (λ few j lt small'. absurd (done' (counted_few s.mandatory few).0))
          λ few. absurd (done' few)

    store_tlv-Inv :
        (r : Valid)
        → IsMessage r.1
        → (s.mandatory < 3 → r.0 ≡ true → Fits (s.mandatory + 1) value)
        → (st : DecodeStatus)
        → Ensures
            (Progress Inv left Result (left s))
            (store_tlv s.off typ (behind s.seen s.dst st) r)
    unfolding store_tlv
    store_tlv-Inv (false, dst) g f st =
        split_if (leb 1 typ && leb typ 3)
          (λ y. rw y (ensures (refused dst st invalid_tlv_length s.off typ)))
          λ y. rw y (
            ensures (
              skips dst _ g (λ few. is_mandatory s.mandatory typ (expected few) few y),
              omega arith,
            ))
    store_tlv-Inv (true, dst) g f st =
        let (seen, found, n, same) = write-index s.seen typ true (omega (arith, i.seen)) in
        rw found (
          ensures (
            behind-Inv seen dst st (omega (arith, i.seen)) g
                (λ few j lt small'.
                  let (few', counts) = counted_few s.mandatory few in
                  same j (λ k. omega (arith, k, expected few', counts, lt))
                  ∙ i.fresh few' j (omega (arith, counts, lt)) small')
                (λ few. f few refl),
            omega arith,
          ))

    accepted : typ ≡ 0 → size ≡ 0 → Accepts pdu
    accepted is_end empty = record {
      tlvs = i.tlvs;
      end = s.off;
      read = i.read;
      three =
          read_all s.mandatory (length i.tlvs) i.count (λ few. omega (arith, expected few, is_end));
      mandatory = i.mandatory;
      last = TlvAt-moves pdu s.off typ 0 value [] is_end (empty_value value (e ∙ empty)) t;
    }

    scan_tlv-Inv :
        (st : DecodeStatus)
        → Ensures
            (Progress Inv left Result (left s))
            (scan_tlv s.off typ size value (behind s.seen s.dst st))
    unfolding scan_tlv
    scan_tlv-Inv st =
        split_eq typ 0
          (λ z is_end. rw z (
            split_if (not (size == 0) || not (counted == 3))
              (λ y. rw y (ensures (refused s.dst st invalid_tlv_length s.off 0)))
              λ y. rw y (ensures (λ _. accepted is_end (ground arith)))))
          λ z _. rw z (
            split_lt s.mandatory 3
              (λ _ few.
                let unseen : index s.seen typ ≡ ret false =
                  i.fresh few typ (omega (arith, expected few)) small in
                let valid : Ensures (ValidFits size value e s.dst b (s.mandatory + 1))
                    (decode_tlv typ size value s.dst) =
                  rw (expected few) (decode_tlv-Fits size value e s.dst b s.mandatory few) in
                rw unseen (
                  Ensures-bind
                    (Ensures-both (decode_tlv-Good typ size value s.dst e b i.message) valid)
                    λ r (g, f). store_tlv-Inv r g (λ _. f) st))
              λ _ late.
                let (seen, found) = index-ret s.seen typ (omega (arith, i.seen)) in
                rw found (
                  split_if (seen && is_lldp_singleton typ)
                    (λ y. rw y (
                      ensures (skips s.dst _ i.message (λ few. absurd (omega arith)), omega arith)))
                    λ y. rw y (
                      Ensures-bind (decode_tlv-Good typ size value s.dst e b i.message)
                        λ r g. store_tlv-Inv r g (λ few. absurd (omega arith)) st)))

  scan-Inv : (s : Scan) → Inv s → Ensures (Progress Inv left Result (left s)) (scan pdu s)
  unfolding scan
  scan-Inv s i =
      split_lt (length pdu) (s.off + 2)
        (λ y _. rw y (ensures (refused s.dst s.st missing_end s.off 0)))
        λ y room.
          let (head, header, small) = be16_at-ret pdu s.off room a in
          rw (y, header)
            (split_lt (length pdu) (s.off + 2 + head % 512)
              (λ z _. rw z (ensures (refused s.dst s.st truncated_tlv s.off (head / 512 % 256))))
              λ z inside.
                let (value, body, size, b) =
                  slice-IsByte pdu (s.off + 2) (s.off + 2 + head % 512) (omega arith) inside a in
                let sized : length value ≡ head % 512 = omega arith in
                rw (z, body)
                  (split_if (ltb s.mandatory 3 && not (head / 512 % 256 == s.mandatory + 1))
                    (λ w. rw w (
                      ensures
                        (refused s.dst s.st invalid_mandatory_order s.off (head / 512 % 256))))
                    λ w. rw w (
                      scan_tlv-Inv s i (head / 512 % 256) (head % 512) value b inside (omega arith)
                        sized
                        (record {
                          head = head;
                          header = header;
                          type_bits = refl;
                          size_bits = sym sized;
                          body = rw sized body;
                        })
                        (λ few. ground arith) s.st)))

  decode_lldpdu_into-Result : (dst : LldpMessage) → Ensures Result (decode_lldpdu_into pdu dst)
  unfolding decode_lldpdu_into
  decode_lldpdu_into-Result dst =
      split_lt max_lldpdu_size (length pdu)
        (λ y _. rw y (ensures (refused (reset dst) no_status too_large (length pdu) 0)))
        λ y _. rw y (
          Ensures-loop Inv left (scan pdu) scan-Inv (length pdu + 1) (start (reset dst))
            (omega arith)
            (record {
              off = omega arith;
              message = reset-IsMessage dst;
              seen = refl;
              fresh = λ _ j _ lt. index-replicate 128 j lt;
              tlvs = [];
              read = no_tlvs;
              mandatory = tt;
              count = inl (omega arith, refl);
            }))

-- If the status of `DecodeLLDPDU` is usable, then the PDU is a chain of TLVs: a chassis ID and a port
-- ID of at least two bytes, a TTL of two, others, and an empty End TLV. It returns on any bytes.
pub decode_lldpdu-Accepts :
    (pdu : Bytes) (dst : Option LldpMessage)
    → All IsByte pdu
    → Ensures
        (λ (r : Decoded (Option LldpMessage)). usable r.1 ≡ true → Accepts pdu)
        (decode_lldpdu pdu dst)
unfolding decode_lldpdu
decode_lldpdu-Accepts pdu none a =
    let never : usable (add_issue no_status fatal nil_destination 0 0) ≡ false =
      usable-fatal no_status nil_destination 0 0 in
    ensures (λ c. cc)
decode_lldpdu-Accepts pdu (some dst) a =
    Ensures-bind (decode_lldpdu_into-Result pdu a dst) λ r g. ensures g
