-- ===== src/Protocol/Issues.antt =====
-- What `addIssue` of protocol.go keeps of the issues that a decoder meets.
use Prim.Native.Nat.{min}
use omnidiscover.Prelude.{
  ℕ, ◌+◌, ◌≤◌, ◌≡◌, refl, ◌∙◌, Bool, true, false, ◌||◌, List, [], ◌∷◌, Option, none, some, arith,
  ltb, if◌then◌else◌, length, All,
}
use omnidiscover.Protocol.{
  DecodeSeverity, clean, ignored, partial, fatal, severity_rank, DecodeIssue, is_no_issue,
  DecodeStatus, no_status, usable, usable_severity, add_issue, count_issue,
}

-- One call of `addIssue`.
pub record Issue : Type 0 where
  pub severity : DecodeSeverity
  pub code : DecodeIssue
  pub offset : ℕ
  pub tlv_type : ℕ

abbrev pub issue_of : DecodeStatus → Issue
issue_of s = record {
  severity = s.severity;
  code = s.code;
  offset = s.offset;
  tlv_type = s.tlv_type;
}

-- The calls that a decoder makes, in order.
abbrev pub add_all : DecodeStatus → List Issue → DecodeStatus
add_all s [] = s
add_all s (i ∷ is) = add_all (add_issue s i.severity i.code i.offset i.tlv_type) is

abbrev pub IsReal : Issue → Type 0
IsReal i = is_no_issue i.code ≡ false

-- The first issue of the greatest severity.
abbrev worse : Issue → Option Issue → Issue
worse i none = i
worse i (some j) = if ltb (severity_rank i.severity) (severity_rank j.severity) then j else i

abbrev pub worst : List Issue → Option Issue
worst [] = none
worst (i ∷ is) = some (worse i (worst is))

worse_assoc :
    (s : DecodeStatus) (i : Issue) (o : Option Issue)
    → is_no_issue s.code ≡ false
    → worse (issue_of (add_issue s i.severity i.code i.offset i.tlv_type)) o
      ≡ worse (issue_of s) (some (worse i o))
unfolding add_issue
worse_assoc s i none h = ground arith
worse_assoc s i (some j) h = ground arith

add_issue-IsReal :
    (s : DecodeStatus) (i : Issue)
    → IsReal i
    → is_no_issue (add_issue s i.severity i.code i.offset i.tlv_type).code ≡ false
unfolding add_issue
add_issue-IsReal s i h = ground arith

add_all-worst :
    (is : List Issue) (s : DecodeStatus)
    → is_no_issue s.code ≡ false
    → All IsReal is
    → issue_of (add_all s is) ≡ worse (issue_of s) (worst is)
add_all-worst [] s h a = refl
add_all-worst (i ∷ is) s h a =
    add_all-worst is _ (add_issue-IsReal s i a.0) a.1 ∙ worse_assoc s i (worst is) h

add_all-count :
    (is : List Issue) (s : DecodeStatus)
    → s.issue_count ≤ 65535
    → (add_all s is).issue_count ≡ min (s.issue_count + length is) 65535
unfolding add_issue
add_all-count [] s h = omega arith
add_all-count (i ∷ is) s h =
    ground (arith, add_all-count is (add_issue s i.severity i.code i.offset i.tlv_type))

add_first : (i : Issue) → issue_of (add_issue no_status i.severity i.code i.offset i.tlv_type) ≡ i
unfolding add_issue
add_first i = ground arith

-- After any sequence of issues, none of them `IssueNone`, the status describes the first issue of
-- the greatest severity, and counts the issues up to 65535.
pub add_all-first_worst :
    (i : Issue) (is : List Issue)
    → All IsReal (i ∷ is)
    → (some (issue_of (add_all no_status (i ∷ is))) ≡ worst (i ∷ is))
      × ((add_all no_status (i ∷ is)).issue_count ≡ min (length (i ∷ is)) 65535)
add_all-first_worst i is a = (
  ground (
    arith,
    add_all-worst is (add_issue no_status i.severity i.code i.offset i.tlv_type)
        (add_issue-IsReal no_status i a.0) a.1,
    add_first i,
  ),
  ground (arith, add_all-count (i ∷ is) no_status),
)

-- The first issue decides whether the status is usable.
pub usable-add_issue :
    (severity : DecodeSeverity) (code : DecodeIssue) (off typ : ℕ)
    → usable (add_issue no_status severity code off typ) ≡ usable_severity severity
unfolding usable add_issue count_issue
usable-add_issue severity code off typ = ground arith

not_below_fatal :
    (severity : DecodeSeverity) → 3 ≤ severity_rank severity → usable_severity severity ≡ false
not_below_fatal clean h = absurd (omega arith)
not_below_fatal ignored h = refl
not_below_fatal partial h = absurd (omega arith)
not_below_fatal fatal h = refl

at_least_fatal : (rank : ℕ) (c : Bool) → (ltb rank 3 || c) ≡ false → 3 ≤ rank
at_least_fatal rank c h = ground arith

stays_fatal :
    (s : DecodeStatus) (code : DecodeIssue) (off typ : ℕ) (c : Bool)
    → (c ≡ false → 3 ≤ severity_rank s.severity)
    → usable
        (if c then record s { severity = fatal; code = code; offset = off; tlv_type = typ } else s)
      ≡ false
unfolding usable
stays_fatal s code off typ true h = refl
stays_fatal s code off typ false h = not_below_fatal s.severity (h refl)

-- A fatal issue makes every status unusable.
pub usable-fatal :
    (s : DecodeStatus) (code : DecodeIssue) (off typ : ℕ)
    → usable (add_issue s fatal code off typ) ≡ false
unfolding add_issue
usable-fatal s code off typ =
    stays_fatal (count_issue s) code off typ _
      (at_least_fatal (severity_rank (count_issue s).severity) (is_no_issue (count_issue s).code))
