-- ===== src/Net/Unique.antt =====
-- `appendUniqueAddr` and `appendUniqueMAC` keep a list free of repetitions.
use omnidiscover.Prelude.{
  ◌≡◌, ◌↔◌, refl, true, false, not, ◌&&◌, ◌||◌, List, [], ◌∷◌, ◌++◌, arith, split_if, length-drop,
  equal, equal_iff, take, All, All-append,
}
use omnidiscover.Net.{
  Addr, no_addr, ip4, ip6, is_valid, unmap, mapped_prefix, addr_eq, contains_addr,
  append_unique_addr, IsAddr,
}

pub addr_eq_iff : (a b : Addr) → (addr_eq a b ≡ true) ↔ (a ≡ b)
addr_eq_iff (ip4 a) (ip4 b) = ground (arith, equal_iff a b)
addr_eq_iff (ip6 a z) (ip6 b w) = ground (arith, equal_iff a b, equal_iff z w)
addr_eq_iff _ _ = ground arith

-- Unmapping leaves an address of 4 or 16 bytes.
pub unmap-IsAddr : (a : Addr) → IsAddr a → IsAddr (unmap a)
unfolding unmap
unmap-IsAddr no_addr h = tt
unmap-IsAddr (ip4 b) h = h
unmap-IsAddr (ip6 b z) h =
    split_if (equal (take 12 b) mapped_prefix) (λ e. rw e (omega (arith, length-drop 12 b)))
      (λ e. rw e h)

pub append_unique_addr-IsAddr :
    (dst : List Addr) (a : Addr) → All IsAddr dst → IsAddr a → All IsAddr (append_unique_addr dst a)
unfolding append_unique_addr
append_unique_addr-IsAddr dst a g h =
    split_if (not (is_valid a)) (λ e. rw e g)
      λ e. rw e (
        split_if (contains_addr dst (unmap a)) (λ t. rw t g)
          λ t. rw t (All-append IsAddr dst (unmap a ∷ []) g (unmap-IsAddr a h, tt)))

-- No element occurs a second time.
abbrev pub Unique : List Addr → Type 0
Unique [] = Unit
Unique (x ∷ xs) = (contains_addr xs x ≡ false) × Unique xs

contains_addr-append :
    (xs : List Addr) (y a : Addr)
    → contains_addr (xs ++ y ∷ []) a ≡ (contains_addr xs a || addr_eq y a)
unfolding contains_addr
contains_addr-append [] y a = ground arith
contains_addr-append (x ∷ xs) y a = ground (arith, contains_addr-append xs y a)

addr_eq_sym : (a b : Addr) → addr_eq a b ≡ addr_eq b a
addr_eq_sym a b = ground (arith, addr_eq_iff a b, addr_eq_iff b a)

Unique-append :
    (xs : List Addr) (y : Addr) → Unique xs → contains_addr xs y ≡ false → Unique (xs ++ y ∷ [])
unfolding contains_addr
Unique-append [] y u h = (refl, tt)
Unique-append (x ∷ xs) y u h = (
  ground (arith, contains_addr-append xs y x, addr_eq_sym x y),
  Unique-append xs y u.1 (ground arith),
)

-- Appending an address keeps the list free of repetitions. Afterwards the list holds what it held,
-- and the unmapped address if that is valid.
pub append_unique_addr-Unique :
    (dst : List Addr) (a b : Addr)
    → Unique dst
    → Unique (append_unique_addr dst a)
      × (contains_addr (append_unique_addr dst a) b
          ≡ (contains_addr dst b || (is_valid a && addr_eq (unmap a) b)))
unfolding append_unique_addr
append_unique_addr-Unique dst a b u =
    split_if (is_valid a)
      (λ v.
        split_if (contains_addr dst (unmap a))
          (λ e. rw (v, e) (u, ground (arith, addr_eq_iff (unmap a) b)))
          λ e. rw (v, e) (Unique-append dst (unmap a) u e, contains_addr-append dst (unmap a) b))
      λ v. rw v (u, ground arith)
