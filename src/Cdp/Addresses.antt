-- ===== src/Cdp/Addresses.antt =====
-- `decodeCDPAddresses` of cdp.go.
pub mod Total
use omnidiscover.Prelude.{
  ℕ, ◌+◌, ◌-◌, Bool, true, false, not, ◌&&◌, ◌||◌, List, ltb, leb, ◌==◌, if◌then◌else◌, length,
  Bytes,
}
use omnidiscover.Go.{
  Go, ret, ◌>>=◌, index, slice, be16, be16_at, be32, be32_at, Round, next, done, loop,
}
use omnidiscover.Net.{Addr, ip4, ip6, append_unique_addr}
use mathlib.Core.List.{[]}

-- The variables of the loop.
pub record Entries : Type 0 where
  pub off : ℕ
  pub i : ℕ
  pub addresses : List Addr

abbrev pub Next : Type 0
Next = Round Entries (Bool × List Addr)

-- `isIP`: whether a network protocol stands for IP
unfoldable pub is_ip : (proto_type proto_len : ℕ) → Bytes → Go Bool
is_ip proto_type proto_len proto =
    if proto_type == 1 && proto_len == 1
    then (do x ← index proto 0; ret (x == 0xcc))
    else if proto_type == 2 && leb 2 proto_len
    then (do
      x ← index proto (proto_len - 2)
      y ← index proto (proto_len - 1)
      ret (x == 0x08 && y == 0x00))
    else ret false

-- The address behind a protocol that was read, if it has a length of an IP address.
append_entry : Bool → Bytes → List Addr → List Addr
append_entry ip address dst =
    if not ip && not (length address == 16)
    then dst
    else if length address == 4
    then append_unique_addr dst (ip4 address)
    else if length address == 16
    then append_unique_addr dst (ip6 address [])
    else dst

-- A round of `for i := 0; i < count; i++`, and the return behind it.
pub entry : Bytes → ℕ → Entries → Go Next
unfolding append_entry is_ip
entry v count s =
    if leb count s.i
    then ret (done (s.off == length v, s.addresses))
    else if ltb (length v) (s.off + 1)
    then ret (done (false, s.addresses))
    else do
      proto_type ← index v s.off
      if ltb (length v) (s.off + 1 + 1) then ret (done (false, s.addresses)) else do
        proto_len ← index v (s.off + 1)
        let off : ℕ = s.off + 2
        if ltb (length v) (off + proto_len + 2) then ret (done (false, s.addresses)) else do
          proto ← slice v off (off + proto_len)
          addr_len ← be16_at v (off + proto_len)
          let off' : ℕ = off + proto_len + 2
          if ltb (length v) (off' + addr_len) then ret (done (false, s.addresses)) else do
            address ← slice v off' (off' + addr_len)
            ip ← is_ip proto_type proto_len proto
            ret (
                next (record {
                  off = off' + addr_len;
                  i = s.i + 1;
                  addresses = append_entry ip address s.addresses;
                }))

-- `decodeCDPAddresses`: whether the list is well formed, and `*dst`
unfoldable pub decode_cdp_addresses : Bytes → List Addr → Go (Bool × List Addr)
unfolding entry
decode_cdp_addresses v dst = if ltb (length v) 4 then ret (false, dst) else do
  count ← be32_at v 0
  if ltb 1024 count
      then ret (false, dst)
      else loop (count + 1) (entry v count) (record { off = 4; i = 0; addresses = dst })
