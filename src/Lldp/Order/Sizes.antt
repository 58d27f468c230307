-- ===== src/Lldp/Order/Sizes.antt =====
-- The sizes of the TLVs of lldp.go that must come first.
use omnidiscover.Prelude.{
  ℕ, zero, suc, ◌+◌, ◌≤◌, ◌<◌, ◌≡◌, true, not, Option, none, some, arith, ◌==◌, split_if, split_lt,
  length, Bytes, All, IsByte,
}
use omnidiscover.Go.Ensures.{
  Ensures, ensures, Ensures-bind, Ensures-index, Ensures-slice, Ensures-be16,
}
use omnidiscover.Lldp.Message.{Identifier, LldpMessage}
use omnidiscover.Lldp.{Valid, decode_tlv, identifier_of, set_chassis_id, set_port_id, decode_ttl}
use omnidiscover.Lldp.Order.Chain.{Fits}

-- A valid mandatory TLV fits.
module _ (size : ℕ) (v : Bytes) (e : length v ≡ size) (dst : LldpMessage) (a : All IsByte v) where
  abbrev IdentifierFits : Option Identifier → Type 0
  IdentifierFits none = Unit
  IdentifierFits (some x) = 2 ≤ length v

  identifier_of-Fits : Ensures IdentifierFits (identifier_of size v)
  unfolding identifier_of
  identifier_of-Fits =
      split_lt size 2 (λ t _. rw t (ensures tt))
        λ t long. rw t (
          Ensures-index v 0 _ (omega arith) a λ subtype _.
            Ensures-slice v 1 (length v) _ (omega arith) (omega arith) a
              λ rest _ _. ensures (omega arith))

  abbrev pub ValidFits : ℕ → Valid → Type 0
  ValidFits typ r = r.0 ≡ true → Fits typ v

  set_chassis_id-Fits :
      (i : Option Identifier) → IdentifierFits i → ValidFits 1 (set_chassis_id dst i)
  unfolding set_chassis_id
  set_chassis_id-Fits none h = λ c. cc
  set_chassis_id-Fits (some x) h = λ _. h

  set_port_id-Fits : (i : Option Identifier) → IdentifierFits i → ValidFits 2 (set_port_id dst i)
  unfolding set_port_id
  set_port_id-Fits none h = λ c. cc
  set_port_id-Fits (some x) h = λ _. h

  decode_ttl-Fits : Ensures (ValidFits 3) (decode_ttl size v dst)
  unfolding decode_ttl
  decode_ttl-Fits =
      split_if (not (size == 2)) (λ t. rw t (ensures (λ c. cc)))
        λ t. rw t (Ensures-be16 v _ (ground arith) a λ ttl _. ensures (λ _. ground arith))

  -- At a mandatory type.
  pub decode_tlv-Fits :
      (k : ℕ) → k < 3 → Ensures (ValidFits (k + 1)) (decode_tlv (k + 1) size v dst)
  unfolding decode_tlv
  decode_tlv-Fits zero h = Ensures-bind identifier_of-Fits λ i f. ensures (set_chassis_id-Fits i f)
  decode_tlv-Fits (suc zero) h =
      Ensures-bind identifier_of-Fits λ i f. ensures (set_port_id-Fits i f)
  decode_tlv-Fits (suc (suc zero)) h = decode_ttl-Fits
  decode_tlv-Fits (suc (suc (suc k))) h = absurd (omega arith)
