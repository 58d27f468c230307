-- ===== src/Mdns/Total.antt =====
-- `DecodeMDNS` on any input.
pub mod Record
pub mod Records
use omnidiscover.Prelude.{
  ℕ, suc, ◌+◌, ◌-◌, ◌/◌, ◌%◌, ◌^◌, ◌≤◌, ◌<◌, ◌≡◌, refl, sym, ◌∙◌, ap, Bool, true, false, not, ◌&&◌,
  ◌||◌, List, [], ◌∷◌, ◌++◌, Option, none, some, arith, ltb, leb, ◌==◌, if◌then◌else◌, split_if,
  split_lt, split_le, length, length-append, Bytes, All, All-append, IsByte,
}
use omnidiscover.Go.{Go, ret, next, done, Round}
use omnidiscover.Go.Ensures.{
  Ensures, ensures, Ensures-bind, Ensures-mono, Ensures-slice, Ensures-be16_at, Ensures-be32_at,
  Ensures-loop, Progress,
}
use omnidiscover.Protocol.{
  DecodeSeverity, usable_severity, fatal, DecodeStatus, DecodeIssue, is_no_issue, add_issue,
  partial, ignored, not_response, unsupported, no_status, usable, too_short, too_large,
}
use omnidiscover.Protocol.Issues.{usable-add_issue}
use omnidiscover.Net.{Addr, no_addr, ip4, ip6, IsAddr}
use omnidiscover.Ethernet.{Decoded, fail}
use omnidiscover.Mdns.Name.{Name, decode_dns_name, lower_dns_name, validate_txt}
use omnidiscover.Mdns.Name.Lower.{
  lower_dns_name-IsByte, length-lower_dns_name, IsLower, lower_dns_name-IsLower,
}
use omnidiscover.Mdns.Name.Total.{IsName, decode_dns_name-IsName}
use omnidiscover.Mdns.Name.Strings.{validate_txt-Strings, Strings, no_strings}
use omnidiscover.Mdns.{
  DnsRecord, MdnsMessage, reset, Rdata, set_target, decode_a, decode_aaaa, decode_ptr, decode_srv,
  decode_txt, decode_rdata, Scan, store_record, is_known_type, scan_header, after_name, scan_record,
  after_question, scan_question, scan_records, scan_message, decode_mdns_into, decode_mdns,
  max_dns_records_per_message, type_a, type_aaaa, type_ptr, type_srv,
}
use Record.{IsRecord, Completes, decode_rdata-Completes}
use Records.{IsMessage, IsResponse, Leaves, Result, Inv, left, scan_record-Inv}

module _ (packet : Bytes) (a : All IsByte packet) (total : ℕ) (few : total ≤ 256) where
  -- The questions change neither the message nor, unless they end the scan, the status.
  record Asks (s : Scan) : Type 0 where
    message : IsMessage s.dst
    response : IsResponse s.dst
    empty : s.dst.records ≡ []

  abbrev Asked : Scan × Bool → Type 0
  Asked (s, more) = Asks s

  module _ (count : ℕ) where
    abbrev to_ask : Scan → ℕ
    to_ask s = count - s.i

    after_question-Asks :
        (s : Scan) (n : Name)
        → Asks s
        → s.i < count
        → Ensures (Progress Asks to_ask Asked (to_ask s)) (after_question packet s n)
    unfolding after_question
    after_question-Asks s (name, after, issue) i h =
        split_if (not (is_no_issue issue))
          (λ e.
            rw e (ensures (record { message = i.message; response = i.response; empty = i.empty })))
          λ e. rw e (
            split_lt (length packet) (after + 4)
              (λ t _.
                rw t (
                  ensures (record { message = i.message; response = i.response; empty = i.empty })))
              λ t _. rw t (
                ensures (
                  record { message = i.message; response = i.response; empty = i.empty },
                  omega arith,
                )))

    scan_question-Asks :
        (s : Scan)
        → Asks s
        → Ensures (Progress Asks to_ask Asked (to_ask s)) (scan_question packet count s)
    unfolding scan_question
    scan_question-Asks s i =
        split_le count s.i (λ e _. rw e (ensures i))
          λ e more. rw e (
            Ensures-bind (decode_dns_name-IsName packet s.off a)
              λ n _. after_question-Asks s n i more)

  scan_records-Leaves : (r : Scan × Bool) → Asked r → Ensures Result (scan_records packet total r)
  unfolding scan_records
  scan_records-Leaves (s, false) i =
      ensures (record { message = i.message; response = λ _. i.response })
  scan_records-Leaves (s, true) i =
      Ensures-loop (Inv packet a total few) (left packet a total few) (scan_record packet total)
        (scan_record-Inv packet a total few) (total + 1) (record s { i = 0 }) (omega arith)
        (record {
          message = i.message;
          response = i.response;
          count = omega (arith, ap length i.empty);
        })

  scan_message-Leaves :
      (questions : ℕ) (dst : MdnsMessage)
      → IsMessage dst
      → IsResponse dst
      → dst.records ≡ []
      → Ensures Result (scan_message packet questions total dst)
  unfolding scan_message
  scan_message-Leaves questions dst m r e =
      Ensures-bind
        (Ensures-loop Asks (to_ask questions) (scan_question packet questions)
          (scan_question-Asks questions) (questions + 1)
          (record { i = 0; off = 12; dst = dst; st = no_status }) (omega arith)
          (record { message = m; response = r; empty = e }))
        scan_records-Leaves

unusable {ℓ} :
    {A : Type ℓ} (severity : DecodeSeverity) (code : DecodeIssue) (off typ : ℕ)
    → usable_severity severity ≡ false
    → usable (add_issue no_status severity code off typ) ≡ true
    → A
unusable severity code off typ h c =
    let same : usable (add_issue no_status severity code off typ) ≡ usable_severity severity =
      usable-add_issue severity code off typ in
    cc

decode_mdns_into-Leaves :
    (packet : Bytes) (dst : MdnsMessage)
    → All IsByte packet
    → Ensures Result (decode_mdns_into packet dst)
unfolding decode_mdns_into reset usable
decode_mdns_into-Leaves packet dst a =
    split_lt (length packet) 12
      (λ e _. rw e (
        ensures (record {
          message = ground arith;
          response = λ c. unusable fatal too_short (length packet) 0 refl c;
        })))
      λ e long. rw e (
        Ensures-be16_at packet 0 _ (omega arith) a λ id p.
          Ensures-be16_at packet 2 _ (omega arith) a λ flags q.
            split_if (flags / 0x8000 % 2 == 0)
              (λ t. rw t (
                ensures (record {
                  message = ground arith;
                  response = λ c. unusable ignored not_response 2 flags refl c;
                })))
              λ t. rw t (
                split_if (not (flags / 0x800 % 16 == 0) || not (flags % 16 == 0))
                  (λ y. rw y (
                    ensures (record {
                      message = ground arith;
                      response = λ c. unusable ignored unsupported 2 flags refl c;
                    })))
                  λ y. rw y (
                    Ensures-be16_at packet 4 _ (omega arith) a λ questions _.
                      Ensures-be16_at packet 6 _ (omega arith) a λ answers _.
                        Ensures-be16_at packet 8 _ (omega arith) a λ authorities _.
                          Ensures-be16_at packet 10 _ (omega arith) a λ additional _.
                            split_if
                              (ltb max_dns_records_per_message questions
                                || ltb max_dns_records_per_message
                                    (answers + authorities + additional))
                              (λ z. rw z (
                                ensures (record {
                                  message = ground arith;
                                  response = λ c. unusable fatal too_large 4 _ refl c;
                                })))
                              λ z. rw z (
                                scan_message-Leaves packet a (answers + authorities + additional)
                                  (ground arith) questions
                                  (record { id = id; flags = flags; records = [] }) (ground arith)
                                  (ground arith) refl))))

-- What is behind `dst` afterwards: nothing behind nil, else a message.
abbrev pub LeavesBehind : Option MdnsMessage → Decoded (Option MdnsMessage) → Type 0
LeavesBehind none (none, st) = Unit
LeavesBehind none (some m, st) = ⊥
LeavesBehind (some dst) (none, st) = ⊥
LeavesBehind (some dst) (some m, st) = Leaves m st

-- On any bytes `DecodeMDNS` returns, without a panic and within its rounds. A nil `dst` stays nil;
-- else the message that it leaves has at most 256 records, each of a type that the decoder knows,
-- with a name and a target of at most 255 bytes and no capital letter, with TXT data that is a
-- sequence of character strings, and with every other value in its width; and a status that is
-- usable comes with a response of opcode 0 and response code 0.
pub decode_mdns-total :
    (packet : Bytes) (dst : Option MdnsMessage)
    → All IsByte packet
    → Ensures (LeavesBehind dst) (decode_mdns packet dst)
unfolding decode_mdns
decode_mdns-total packet none a = ensures tt
decode_mdns-total packet (some dst) a =
    Ensures-bind (decode_mdns_into-Leaves packet dst a) λ r g. ensures g
