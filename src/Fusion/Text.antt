-- ===== src/Fusion/Text.antt =====
-- The text fields of fusion.go: values with the protocols that say them, the best one canonical. An
-- index that the code has in range is read by `get_or`, and -1 is `none`.
pub mod Canonical
pub mod Distinct
pub mod Merge
use omnidiscover.Prelude.{
  ℕ, zero, suc, ◌+◌, ◌-◌, ◌*◌, ◌/◌, ◌%◌, Bool, true, false, not, ◌&&◌, ◌||◌, List, [], ◌∷◌, ◌++◌,
  Option, none, some, ltb, leb, ◌==◌, if◌then◌else◌, length, get_or, set, take, drop, Bytes, equal,
  bit_or,
}
use omnidiscover.Protocol.{ProtocolSet}
use omnidiscover.Model.{Time, TextValue, TextField, no_value}

-- `isTrimByte`
pub is_trim_byte : ℕ → Bool
is_trim_byte c = c == 0 || c == b' ' || c == 9 || c == 13 || c == 10

-- `for start < end && isTrimByte(src[start])`, with the bytes that are left
trim_start : Bytes → ℕ → ℕ → ℕ
unfolding is_trim_byte
trim_start src zero start = start
trim_start src (suc left) start =
    let rest = trim_start src left (start + 1) in
    if is_trim_byte (get_or src start 0) then rest else start

-- `for end > start && isTrimByte(src[end-1])`, with the bytes that are left
trim_end : Bytes → ℕ → ℕ → ℕ
unfolding is_trim_byte
trim_end src zero end = end
trim_end src (suc left) end =
    let rest = trim_end src left (end - 1) in
    if is_trim_byte (get_or src (end - 1) 0) then rest else end

-- `CleanText`
pub clean_text : Bytes → Bytes
unfolding trim_start trim_end
clean_text src =
    let start : ℕ = trim_start src (length src) 0 in
    let end : ℕ = trim_end src (length src - start) (length src) in
    take (end - start) (drop start src)

-- `bits.OnesCount8`
pub ones_count8 : ℕ → ℕ
ones_count8 p =
    p % 2 + p / 2 % 2 + p / 4 % 2 + p / 8 % 2 + p / 16 % 2 + p / 32 % 2 + p / 64 % 2 + p / 128 % 2

-- `textRank`
pub text_rank : TextValue → ℕ
unfolding ones_count8
text_rank v = v.confidence * 16 + ones_count8 v.protocols

-- `textRank(&field.Values[i])`
abbrev pub rank_at : List TextValue → ℕ → ℕ
rank_at values i = text_rank (get_or values i no_value)

-- The loop of `selectCanonical`, over so many values from `i` on.
pub select_best : List TextValue → (left i best : ℕ) → ℕ
unfolding text_rank
select_best values zero i best = best
select_best values (suc left) i best =
    select_best values left (i + 1)
      (if ltb (rank_at values best) (rank_at values i) then i else best)

-- `selectCanonical`
pub select_canonical : TextField → TextField
unfolding select_best
select_canonical field =
    if length field.values == 0
    then record field { canonical = 0 }
    else (let cur : ℕ = if leb (length field.values) field.canonical then 0 else field.canonical in
        record field { canonical = select_best field.values (length field.values) 0 cur % 256 })

-- A value that is said again.
pub confirm_value : TextValue → ProtocolSet → ℕ → Time → TextValue
confirm_value v protocols confidence now = record v {
  protocols = bit_or v.protocols protocols;
  confidence = if ltb v.confidence confidence then confidence else v.confidence;
  last_seen = if ltb v.last_seen now then now else v.last_seen;
}

-- Whether saying it again changes it, but for the time.
pub is_changed : TextValue → ProtocolSet → ℕ → Bool
is_changed v protocols confidence =
    not (bit_or v.protocols protocols == v.protocols) || ltb v.confidence confidence

-- The first loop of `mergeText`: the place of the value
pub find_text : List TextValue → Bytes → Option ℕ
find_text [] value = none
find_text (v ∷ vs) value =
    if equal v.value value
    then some 0
    else elim (find_text vs value) [ some i ↦ some (i + 1) | none ↦ none ]

-- `TextValue{Value: value, ...}`
abbrev pub new_value : Bytes → ProtocolSet → ℕ → Time → TextValue
new_value value protocols confidence now = record {
  value = value;
  protocols = protocols;
  confidence = confidence;
  first_seen = now;
  last_seen = now;
}

-- `replace < 0 || ...`, for the value at `i`
pub is_weaker : List TextValue → ℕ → Option ℕ → Bool
unfolding text_rank
is_weaker values i none = true
is_weaker values i (some r) =
    ltb (rank_at values i) (rank_at values r)
    || (rank_at values i == rank_at values r
        && ltb (get_or values i no_value).last_seen (get_or values r no_value).last_seen)

-- The second loop of `mergeText`, over so many values from `i` on
pub weakest : List TextValue → (canonical left i : ℕ) → Option ℕ → Option ℕ
unfolding is_weaker
weakest values canonical zero i replace = replace
weakest values canonical (suc left) i replace =
    weakest values canonical left (i + 1)
      (if i == canonical then replace else if is_weaker values i replace then some i else replace)

-- The new value over the weakest alternative, unless it is weaker still.
pub replace_value : TextField → TextValue → Option ℕ → Bool × TextField
unfolding select_canonical text_rank
replace_value field v none = (false, field)
replace_value field v (some r) =
    if ltb (text_rank v) (rank_at field.values r)
    then (false, field)
    else (true, select_canonical (record field { values = set field.values r v }))

-- A value that no alternative has.
pub add_value : TextField → TextValue → ℕ → Bool × TextField
unfolding select_canonical replace_value weakest
add_value field v max_values =
    if ltb (length field.values) max_values
    then (true, select_canonical (record field { values = field.values ++ v ∷ [] }))
    else replace_value field v (weakest field.values field.canonical (length field.values) 0 none)

pub merge_found : TextField → Bytes → ProtocolSet → ℕ → Time → ℕ → Option ℕ → Bool × TextField
unfolding select_canonical confirm_value is_changed add_value
merge_found field value protocols confidence now max_alternatives (some i) =
    let v : TextValue = get_or field.values i no_value in
    (
      is_changed v protocols confidence,
      select_canonical
          (record field { values = set field.values i (confirm_value v protocols confidence now) }),
    )
merge_found field value protocols confidence now max_alternatives none =
    add_value field (new_value value protocols confidence now) (max_alternatives + 1)

-- `mergeText`
pub merge_text : TextField → Bytes → ProtocolSet → ℕ → Time → ℕ → Bool × TextField
unfolding clean_text find_text merge_found
merge_text field value protocols confidence now max_alternatives =
    let cleaned : Bytes = clean_text value in
    if length cleaned == 0
    then (false, field)
    else merge_found field cleaned protocols confidence now max_alternatives
        (find_text field.values cleaned)

-- `mergeTextField`
unfoldable pub merge_text_field : TextField → List TextValue → ℕ → TextField
unfolding merge_text
merge_text_field dst [] max = dst
merge_text_field dst (v ∷ vs) max =
    merge_text_field (merge_text dst v.value v.protocols v.confidence v.last_seen max).1 vs max
