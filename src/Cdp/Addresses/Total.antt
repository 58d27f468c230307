-- ===== src/Cdp/Addresses/Total.antt =====
-- `decodeCDPAddresses` of cdp.go on any value.
use omnidiscover.Prelude.{
  ℕ, ◌+◌, ◌-◌, ◌≤◌, ◌≡◌, Bool, not, ◌&&◌, List, [], arith, leb, ◌==◌, split_if, split_lt, split_le,
  length, Bytes, All, IsByte,
}
use omnidiscover.Go.Ensures.{
  Ensures, ensures, Ensures-bind, Ensures-index, Ensures-slice, Ensures-be16_at, Ensures-be32_at,
  Ensures-loop, Progress,
}
use omnidiscover.Net.{Addr, ip4, ip6, IsAddr}
use omnidiscover.Net.Unique.{append_unique_addr-IsAddr}
use omnidiscover.Cdp.Addresses.{Entries, is_ip, append_entry, entry, decode_cdp_addresses}

is_ip-returns :
    (proto_type proto_len : ℕ) (proto : Bytes)
    → length proto ≡ proto_len
    → All IsByte proto
    → Ensures (λ (b : Bool). Unit {0}) (is_ip proto_type proto_len proto)
unfolding is_ip
is_ip-returns t n proto e a =
    split_if (t == 1 && n == 1)
      (λ y. rw y (Ensures-index proto 0 _ (ground arith) a λ x _. ensures tt))
      λ y. rw y (
        split_if (t == 2 && leb 2 n)
          (λ z. rw z (
            Ensures-index proto (n - 2) _ (ground arith) a
              λ x _. Ensures-index proto (n - 1) _ (ground arith) a λ x' _. ensures tt))
          λ z. rw z (ensures tt))

append_entry-IsAddr :
    (ip : Bool) (address : Bytes) (dst : List Addr)
    → All IsAddr dst
    → All IsAddr (append_entry ip address dst)
unfolding append_entry
append_entry-IsAddr ip address dst g =
    split_if (not ip && not (length address == 16)) (λ e. rw e g)
      λ e. rw e (
        split_if (length address == 4)
          (λ t. rw t (append_unique_addr-IsAddr dst (ip4 address) g (ground arith)))
          λ t. rw t (
            split_if (length address == 16)
              (λ t'. rw t' (append_unique_addr-IsAddr dst (ip6 address []) g (ground arith)))
              λ t'. rw t' g))

module _ (v : Bytes) (a : All IsByte v) (count : ℕ) where
  record Inv (s : Entries) : Type 0 where
    off : s.off ≤ length v
    rounds : s.i ≤ count
    addresses : All IsAddr s.addresses

  abbrev Result : Bool × List Addr → Type 0
  Result r = All IsAddr r.1

  abbrev left : Entries → ℕ
  left s = count - s.i

  entry-Inv : (s : Entries) → Inv s → Ensures (Progress Inv left Result (left s)) (entry v count s)
  unfolding entry
  entry-Inv s i =
      split_le count s.i (λ e _. rw e (ensures i.addresses))
        λ e more. rw e (
          split_lt (length v) (s.off + 1) (λ t _. rw t (ensures i.addresses))
            λ t h1. rw t (
              Ensures-index v s.off _ (omega arith) a λ proto_type _.
                split_lt (length v) (s.off + 1 + 1) (λ t' _. rw t' (ensures i.addresses))
                  λ t' h2. rw t' (
                    Ensures-index v (s.off + 1) _ (omega arith) a λ n _.
                      split_lt (length v) (s.off + 2 + n + 2) (λ y _. rw y (ensures i.addresses))
                        λ y h3. rw y (
                          Ensures-slice v (s.off + 2) (s.off + 2 + n) _ (omega arith) (omega arith)
                            a
                            λ proto size b.
                              Ensures-be16_at v (s.off + 2 + n) _ (omega arith) a λ m _.
                                split_lt (length v) (s.off + 2 + n + 2 + m)
                                  (λ z _. rw z (ensures i.addresses))
                                  λ z h4. rw z (
                                    Ensures-slice v (s.off + 2 + n + 2) (s.off + 2 + n + 2 + m) _
                                      (omega arith) (omega arith) a
                                      λ address _ _.
                                        Ensures-bind
                                          (is_ip-returns proto_type n proto (omega arith) b)
                                          λ ip _. ensures (
                                            record {
                                              off = omega arith;
                                              rounds = omega arith;
                                              addresses =
                                                  append_entry-IsAddr ip address s.addresses
                                                    i.addresses;
                                            },
                                            omega arith,
                                          ))))))

-- The reads stay in the value, and each address has 4 or 16 bytes.
pub decode_cdp_addresses-IsAddr :
    (v : Bytes) (dst : List Addr)
    → All IsByte v
    → All IsAddr dst
    → Ensures (λ (r : Bool × List Addr). All IsAddr r.1) (decode_cdp_addresses v dst)
unfolding decode_cdp_addresses
decode_cdp_addresses-IsAddr v dst a g =
    split_lt (length v) 4 (λ e _. rw e (ensures g))
      λ e fits. rw e (
        Ensures-be32_at v 0 _ (omega arith) a λ count _.
          split_lt 1024 count (λ t _. rw t (ensures g))
            λ t _. rw t (
              Ensures-loop (Inv v a count) (left v a count) (entry v count) (entry-Inv v a count)
                (count + 1) _ (omega arith)
                (record { off = fits; rounds = omega arith; addresses = g })))
