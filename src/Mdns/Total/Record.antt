-- ===== src/Mdns/Total/Record.antt =====
-- The data of a record of mdns.go, `case` by `case`.
use omnidiscover.Prelude.{
  ℕ, ◌+◌, ◌^◌, ◌≤◌, ◌<◌, ◌≡◌, true, not, ◌&&◌, none, some, arith, ◌==◌, split_if, split_lt, length,
  Bytes, All, IsByte,
}
use omnidiscover.Go.Ensures.{Ensures, ensures, Ensures-bind, Ensures-slice, Ensures-be16_at}
use omnidiscover.Protocol.{is_no_issue}
use omnidiscover.Net.{IsAddr}
use omnidiscover.Mdns.Name.{Name, lower_dns_name}
use omnidiscover.Mdns.Name.Lower.{
  lower_dns_name-IsByte, length-lower_dns_name, IsLower, lower_dns_name-IsLower,
}
use omnidiscover.Mdns.Name.Total.{IsName, decode_dns_name-IsName}
use omnidiscover.Mdns.Name.Strings.{validate_txt-Strings, Strings}
use omnidiscover.Mdns.{
  DnsRecord, Rdata, set_target, decode_a, decode_aaaa, decode_ptr, decode_srv, decode_txt,
  decode_rdata, is_known_type, type_a, type_aaaa, type_ptr, type_srv,
}

-- What a record that is kept has: a known type, a lowered name, and values in their widths. Its
-- texts are character strings, and the address of an A or AAAA record is a whole one.
pub record IsRecord (r : DnsRecord) : Type 0 where
  pub known : is_known_type r.type ≡ true
  pub name : All IsByte r.name
  pub name_size : length r.name ≤ 255
  pub name_lower : All IsLower r.name
  pub class : r.class < 0x8000
  pub ttl : r.ttl < 2 ^ 32
  pub target : All IsByte r.target
  pub target_size : length r.target ≤ 255
  pub target_lower : All IsLower r.target
  pub address : IsAddr r.address
  pub port : r.port < 65536
  pub priority : r.priority < 65536
  pub weight : r.weight < 65536
  pub txt : All IsByte r.txt
  pub strings : Strings r.txt

abbrev pub Completes : Rdata → Type 0
Completes none = Unit
Completes (some r) = IsRecord r

module _ (packet : Bytes) (a : All IsByte packet) where
  module _ (r : DnsRecord) (g : IsRecord r) (rdata end : ℕ) where
    set_target-Completes :
        (n : Name) → IsName (length packet) rdata n → Completes (set_target r end n)
    unfolding set_target
    set_target-Completes (target, after, issue) n =
        split_if (is_no_issue issue && after == end)
          (λ e. rw e (
            let small : length (lower_dns_name target) ≤ 255 =
              omega (arith, length-lower_dns_name target, n.size) in
            ground (arith, lower_dns_name-IsByte target n.bytes, lower_dns_name-IsLower target)))
          λ e. rw e tt

    decode_ptr-Completes : Ensures Completes (decode_ptr packet rdata end r)
    unfolding decode_ptr
    decode_ptr-Completes =
        Ensures-bind (decode_dns_name-IsName packet rdata a)
          λ n d. ensures (set_target-Completes n d)

  module _ (r : DnsRecord) (g : IsRecord r) (rdata end size : ℕ) (cut : end ≡ rdata + size)
      (fits : end ≤ length packet) where
    decode_a-Completes : Ensures Completes (decode_a packet rdata size r)
    unfolding decode_a
    decode_a-Completes =
        split_if (not (size == 4)) (λ t. rw t (ensures tt))
          λ t. rw t (
            Ensures-slice packet rdata (rdata + 4) _ (omega arith) (ground arith) a
              λ address n b. ensures (ground arith))

    decode_aaaa-Completes : Ensures Completes (decode_aaaa packet rdata end size r)
    unfolding decode_aaaa
    decode_aaaa-Completes =
        split_if (not (size == 16)) (λ t. rw t (ensures tt))
          λ t. rw t (
            Ensures-slice packet rdata end _ (omega arith) fits a
              λ address n b. ensures (ground arith))

    decode_txt-Completes : Ensures Completes (decode_txt packet rdata end r)
    unfolding decode_txt
    decode_txt-Completes = Ensures-slice packet rdata end _ (omega arith) fits a λ txt n b.
        Ensures-bind (validate_txt-Strings txt) λ valid v.
          split_if valid (λ t. rw t (ensures (kept txt b (v.0 t)))) λ t. rw t (ensures tt)
      where
        kept : (txt : Bytes) → All IsByte txt → Strings txt → IsRecord (record r { txt = txt })
        kept txt b parts = ground arith

    decode_srv-Completes : Ensures Completes (decode_srv packet rdata end size r)
    unfolding decode_srv
    decode_srv-Completes =
        split_lt size 7 (λ t _. rw t (ensures tt))
          λ t long. rw t (
            Ensures-be16_at packet rdata _ (omega arith) a λ priority p.
              Ensures-be16_at packet (rdata + 2) _ (omega arith) a λ weight w.
                Ensures-be16_at packet (rdata + 4) _ (omega arith) a λ port q.
                  Ensures-bind (decode_dns_name-IsName packet (rdata + 6) a) λ n d. ensures (
                    set_target-Completes
                      (record r { priority = priority; weight = weight; port = port })
                      (ground arith) (rdata + 6) end n d))

    pub decode_rdata-Completes : Ensures Completes (decode_rdata packet rdata end size r)
    unfolding decode_rdata
    decode_rdata-Completes =
        split_if (r.type == type_a) (λ t. rw t decode_a-Completes)
          λ t. rw t (
            split_if (r.type == type_aaaa) (λ t. rw t decode_aaaa-Completes)
              λ t. rw t (
                split_if (r.type == type_ptr) (λ t. rw t (decode_ptr-Completes r g rdata end))
                  λ t. rw t (
                    split_if (r.type == type_srv) (λ t. rw t decode_srv-Completes)
                      λ t. rw t decode_txt-Completes)))
