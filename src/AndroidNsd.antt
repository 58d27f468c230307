-- ===== src/AndroidNsd.antt =====
-- android_nsd.go: the profile of a DNS-SD service, and the values in its TXT record. `bytes.EqualFold`
-- goes by the tables of Unicode, so it is a parameter.
pub mod Lookup
use omnidiscover.Prelude.{
  ℕ, ◌+◌, Bool, true, false, ◌||◌, List, [], ◌∷◌, Option, none, some, ltb, leb, ◌==◌, if◌then◌else◌,
  length, Bytes,
}
use omnidiscover.Go.{Go, ret, ◌>>=◌, index, slice, Round, next, done, loop}
use omnidiscover.Model.{Service}
use omnidiscover.Ethernet.{Decoded}
use omnidiscover.Mdns.{MdnsMessage, decode_mdns}

-- `DecodeAndroidNSD`
unfoldable pub decode_android_nsd : Bytes → Option MdnsMessage → Go (Decoded (Option MdnsMessage))
decode_android_nsd packet dst = decode_mdns packet dst

pub data ServiceProfile : Type 0 where
  dns_service google_cast : ServiceProfile

-- "_googlecast._tcp.local"
abbrev pub google_cast_service_type : Bytes
google_cast_service_type =
    b'_' ∷ b'g' ∷ b'o' ∷ b'o' ∷ b'g' ∷ b'l' ∷ b'e' ∷ b'c' ∷ b'a' ∷ b's' ∷ b't' ∷ b'.' ∷ b'_' ∷ b't'
    ∷ b'c' ∷ b'p' ∷ b'.' ∷ b'l' ∷ b'o' ∷ b'c' ∷ b'a' ∷ b'l' ∷ []

-- `bytes.IndexByte`; -1 is `none`.
index_byte : Bytes → ℕ → Option ℕ
index_byte [] c = none
index_byte (x ∷ xs) c =
    let rest = index_byte xs c in
    if x == c then some 0 else elim rest [ none ↦ none | some i ↦ some (i + 1) ]

module _ (equal_fold : Bytes → Bytes → Bool) where
  -- `Service.Profile`
  unfoldable pub profile : Option Service → ServiceProfile
  profile none = dns_service
  profile (some s) = if equal_fold s.type google_cast_service_type then google_cast else dns_service

  -- An entry of the TXT record, and what the loop does then
  entry_value_of : Bytes → Bytes → ℕ → Option ℕ → Go (Round ℕ (Option Bytes))
  entry_value_of key entry off none =
      if equal_fold entry key
      then (do value ← slice entry (length entry) (length entry); ret (done (some value)))
      else ret (next off)
  entry_value_of key entry off (some separator) = do
    name ← slice entry 0 separator
    if equal_fold name key
        then (do value ← slice entry (separator + 1) (length entry); ret (done (some value)))
        else ret (next off)

  -- A round of the loop of `TXTValue`
  look_entry : Bytes → Bytes → ℕ → Go (Round ℕ (Option Bytes))
  look_entry key txt offset = if leb (length txt) offset then ret (done none) else do
    size ← index txt offset
    let offset' = offset + 1
    if ltb (length txt) (offset' + size) then ret (done none) else do
      entry ← slice txt offset' (offset' + size)
      entry_value_of key entry (offset' + size) (index_byte entry b'=')

  -- `Service.TXTValue`; a result that is not `ok` is `none`.
  unfoldable pub txt_value : Option Service → Bytes → Go (Option Bytes)
  unfolding look_entry entry_value_of index_byte
  txt_value none key = ret none
  txt_value (some s) key =
      if length key == 0 then ret none else loop (length s.txt + 1) (look_entry key s.txt) 0
