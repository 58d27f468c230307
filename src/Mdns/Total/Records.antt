-- ===== src/Mdns/Total/Records.antt =====
-- The loop over the records of `DecodeMDNS`.
use omnidiscover.Prelude.{
  ℕ, ◌+◌, ◌-◌, ◌/◌, ◌%◌, ◌^◌, ◌≤◌, ◌<◌, ◌≡◌, refl, true, false, not, [], ◌∷◌, none, some, arith,
  ◌==◌, split_if, split_lt, split_le, length, length-append, Bytes, All, All-append, IsByte,
}
use omnidiscover.Go.Ensures.{
  Ensures, ensures, Ensures-bind, Ensures-be16_at, Ensures-be32_at, Progress,
}
use omnidiscover.Protocol.{DecodeStatus, is_no_issue, usable}
use omnidiscover.Net.{no_addr}
use omnidiscover.Ethernet.{Decoded}
use omnidiscover.Mdns.Name.{Name, lower_dns_name}
use omnidiscover.Mdns.Name.Lower.{
  lower_dns_name-IsByte, length-lower_dns_name, lower_dns_name-IsLower,
}
use omnidiscover.Mdns.Name.Total.{IsName, decode_dns_name-IsName}
use omnidiscover.Mdns.Name.Strings.{no_strings}
use omnidiscover.Mdns.{
  MdnsMessage, Rdata, Scan, store_record, is_known_type, scan_header, after_name, scan_record,
}
use omnidiscover.Mdns.Total.Record.{IsRecord, Completes, decode_rdata-Completes}

pub record IsMessage (m : MdnsMessage) : Type 0 where
  pub id : m.id < 65536
  pub flags : m.flags < 65536
  pub records : All IsRecord m.records
  pub few : length m.records ≤ 256

-- A response of a standard query without an error: RFC 6762, section 18.
abbrev pub IsResponse : MdnsMessage → Type 0
IsResponse m = (m.flags / 0x8000 % 2 ≡ 1) × (m.flags / 0x800 % 16 ≡ 0) × (m.flags % 16 ≡ 0)

-- What `DecodeMDNS` leaves, with its status.
pub record Leaves (m : MdnsMessage) (st : DecodeStatus) : Type 0 where
  pub message : IsMessage m
  pub response : usable st ≡ true → IsResponse m

abbrev pub Result : Decoded MdnsMessage → Type 0
Result (m, st) = Leaves m st

module _ (packet : Bytes) (a : All IsByte packet) (total : ℕ) (few : total ≤ 256) where
  pub record Inv (s : Scan) : Type 0 where
    pub message : IsMessage s.dst
    pub response : IsResponse s.dst
    pub count : length s.dst.records ≤ s.i

  abbrev pub left : Scan → ℕ
  left s = total - s.i

  ends : (s : Scan) (st : DecodeStatus) → Inv s → Leaves s.dst st
  ends s st i = record { message = i.message; response = λ _. i.response }

  store_record-Inv :
      (s : Scan) (rdata typ end : ℕ) (r : Rdata)
      → Inv s
      → s.i < total
      → Completes r
      → Inv (store_record rdata typ end s r) × (left (store_record rdata typ end s r) < left s)
  unfolding store_record
  store_record-Inv s rdata typ end none i h c = (
    record { message = i.message; response = i.response; count = omega (arith, i.count) },
    omega arith,
  )
  store_record-Inv s rdata typ end (some r) i h c = (
    record {
      message = record {
        id = i.message.id;
        flags = i.message.flags;
        records = All-append IsRecord s.dst.records (r ∷ []) i.message.records (c, tt);
        few = omega (arith, length-append s.dst.records (r ∷ []), i.count);
      };
      response = i.response;
      count = omega (arith, length-append s.dst.records (r ∷ []), i.count);
    },
    omega arith,
  )

  scan_header-Inv :
      (name : Bytes) (after : ℕ) (s : Scan)
      → Inv s
      → s.i < total
      → All IsByte name
      → length name ≤ 255
      → Ensures (Progress Inv left Result (left s)) (scan_header packet name after s)
  unfolding scan_header
  scan_header-Inv name after s i h b size =
      split_lt (length packet) (after + 10) (λ e _. rw e (ensures (ends s _ i)))
        λ e fits. rw e (
          Ensures-be16_at packet after _ (omega arith) a λ typ p.
            Ensures-be16_at packet (after + 2) _ (omega arith) a λ class q.
              Ensures-be32_at packet (after + 4) _ (omega arith) a λ ttl t.
                Ensures-be16_at packet (after + 8) _ (omega arith) a λ size' u.
                  split_lt (length packet) (after + 10 + size') (λ y _. rw y (ensures (ends s _ i)))
                    λ y inside. rw y (
                      split_if (not (is_known_type typ))
                        (λ z. rw z (
                          ensures (
                            record {
                              message = i.message;
                              response = i.response;
                              count = omega (arith, i.count);
                            },
                            omega arith,
                          )))
                        λ z. rw z (
                          Ensures-bind
                            (decode_rdata-Completes packet a _ (fresh typ class ttl t z)
                              (after + 10) (after + 10 + size') size' refl inside)
                            λ r c.
                              ensures (
                                store_record-Inv s (after + 10) typ (after + 10 + size') r i h c))))
    where
      fresh :
          (typ class ttl : ℕ)
          → ttl < 2 ^ 32
          → not (is_known_type typ) ≡ false
          → IsRecord (record {
            name = lower_dns_name name;
            type = typ;
            class = class % 0x8000;
            cache_flush = class / 0x8000 % 2 == 1;
            ttl = ttl;
            target = [];
            address = no_addr;
            port = 0;
            priority = 0;
            weight = 0;
            txt = [];
          })
      fresh typ class ttl h' z = record {
        known = ground arith;
        name = lower_dns_name-IsByte name b;
        name_size = omega (arith, length-lower_dns_name name, size);
        name_lower = lower_dns_name-IsLower name;
        class = omega arith;
        ttl = h';
        target = tt;
        target_size = omega arith;
        target_lower = tt;
        address = tt;
        port = omega arith;
        priority = omega arith;
        weight = omega arith;
        txt = tt;
        strings = no_strings;
      }

  after_name-Inv :
      (s : Scan) (n : Name)
      → Inv s
      → s.i < total
      → IsName (length packet) s.off n
      → Ensures (Progress Inv left Result (left s)) (after_name packet s n)
  unfolding after_name
  after_name-Inv s (name, after, issue) i h n =
      split_if (not (is_no_issue issue)) (λ e. rw e (ensures (ends s _ i)))
        λ e. rw e (scan_header-Inv name after s i h n.bytes n.size)

  pub scan_record-Inv :
      (s : Scan) → Inv s → Ensures (Progress Inv left Result (left s)) (scan_record packet total s)
  unfolding scan_record
  scan_record-Inv s i =
      split_le total s.i (λ e _. rw e (ensures (ends s _ i)))
        λ e more.
          rw e (
            Ensures-bind (decode_dns_name-IsName packet s.off a) λ n d. after_name-Inv s n i more d)
