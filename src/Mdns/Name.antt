-- ===== src/Mdns/Name.antt =====
-- `decodeDNSName`, `lowerDNSName` and `validateTXT` of mdns.go. `length & 0xc0 == 0xc0` is
-- `length / 64 == 3`. `next` is an option where the code has -1.
pub mod Labels
pub mod Reached
pub mod Lower
pub mod Total
pub mod Strings
pub mod RoundTrip
pub mod Reading
use omnidiscover.Prelude.{
  ℕ, ◌+◌, ◌-◌, ◌/◌, ◌%◌, Bool, true, false, not, ◌&&◌, ◌||◌, List, [], ◌∷◌, ◌++◌, map, Option, none,
  some, ltb, leb, ◌==◌, if◌then◌else◌, length, Bytes,
}
use omnidiscover.Go.{Go, ret, ◌>>=◌, index, slice, be16, be16_at, Round, next, done, loop}
use omnidiscover.Protocol.{
  DecodeIssue, no_issue, too_short, compression_loop, invalid_header, too_many_labels, too_large,
}

abbrev pub max_dns_labels : ℕ
max_dns_labels = 32

abbrev pub max_dns_name_size : ℕ
max_dns_name_size = 255

-- The name, the offset behind it, and the issue.
abbrev pub Name : Type 0
Name = Bytes × ℕ × DecodeIssue

-- The variables of the loop.
pub record Walk : Type 0 where
  pub off : ℕ
  pub after : Option ℕ
  pub labels : ℕ
  pub jumps : ℕ
  pub dst : Bytes

abbrev pub Next : Type 0
Next = Round Walk Name

-- `if next < 0 { next = n }`
abbrev or_else : Option ℕ → ℕ → ℕ
or_else none n = n
or_else (some m) n = m

-- `return dst[:0], start, issue`
abbrev refuse : ℕ → DecodeIssue → Go Next
refuse start issue = ret (done ([], start, issue))

-- A compression pointer at `w.off`.
follow : Bytes → ℕ → Walk → Go Next
follow packet start w = if leb (length packet) (w.off + 1) then refuse start too_short else do
  word ← be16_at packet w.off
  if ltb max_dns_labels (w.jumps + 1)
      then refuse start compression_loop
      else ret (
          next (record w {
            off = word % 0x4000;
            after = some (or_else w.after (w.off + 2));
            jumps = w.jumps + 1;
          }))

-- The bytes of the label are appended behind a dot, unless the name is empty.
append_label : Bytes → ℕ → ℕ → Walk → Bytes → Go Next
append_label packet start size w dst =
    if ltb max_dns_name_size (length dst + size) then refuse start too_large else do
      label ← slice packet (w.off + 1) (w.off + 1 + size)
      ret (next (record w { off = w.off + (1 + size); labels = w.labels + 1; dst = dst ++ label }))

-- A label of `size` bytes at `w.off`.
read_label : Bytes → ℕ → ℕ → Walk → Go Next
unfolding append_label
read_label packet start size w =
    if ltb (length packet) (w.off + 1 + size)
    then refuse start too_short
    else if ltb max_dns_labels (w.labels + 1)
    then refuse start too_many_labels
    else if not (length w.dst == 0)
    then if ltb max_dns_name_size (length w.dst + 1)
      then refuse start too_large
      else append_label packet start size w (w.dst ++ b'.' ∷ [])
    else append_label packet start size w w.dst

-- A round of the loop.
walk : Bytes → ℕ → Walk → Go Next
unfolding follow read_label
walk packet start w = if leb (length packet) w.off then refuse start too_short else do
  size ← index packet w.off
  if size == 0
      then ret (done (w.dst, or_else w.after (w.off + 1), no_issue))
      else if size / 64 == 3
      then follow packet start w
      else if not (size / 64 == 0) || ltb 63 size
      then refuse start invalid_header
      else read_label packet start size w

-- `decodeDNSName` into an empty buffer. Each round but the last is a jump or a label, and there
-- are at most 32 of each.
unfoldable pub decode_dns_name : Bytes → ℕ → Go Name
unfolding walk
decode_dns_name packet off =
    loop 65 (walk packet off) (record { off = off; after = none; labels = 0; jumps = 0; dst = [] })

-- One byte of `lowerDNSName`
pub lower_byte : ℕ → ℕ
lower_byte c = if leb b'A' c && leb c b'Z' then c + 32 else c

-- `lowerDNSName`
unfoldable pub lower_dns_name : Bytes → Bytes
unfolding lower_byte
lower_dns_name = map lower_byte

-- A round of the loop of `validateTXT`, and the return behind it.
pub skip_string : Bytes → ℕ → Go (Round ℕ Bool)
skip_string b off = if leb (length b) off then ret (done true) else do
  n ← index b off
  if ltb (length b) (off + 1 + n) then ret (done false) else ret (next (off + 1 + n))

-- `validateTXT`: whether the bytes are character strings, each behind its length
unfoldable pub validate_txt : Bytes → Go Bool
unfolding skip_string
validate_txt b = loop (length b + 1) (skip_string b) 0
