-- ===== src/Capture/Filter.antt =====
-- capture_common.go: the filter that the kernel runs on frames, with the labels of its program resolved
-- to distances.
pub mod Program
use omnidiscover.Prelude.{ℕ, ◌+◌, ◌-◌, ◌||◌, List, [], ◌∷◌, Option, none, some, ltb, if◌then◌else◌}
use omnidiscover.Go.{Go, ret, panic, ◌>>=◌, index, write}
use omnidiscover.Protocol.{ProtocolSet}
use omnidiscover.Ethernet.{max_vlan_tags}
use omnidiscover.Capture.Builder.{
  FilterInsn, FilterFixup, FilterBuilder, bpf_ret_k, insn, emit, emit_depths,
}

-- `b.labels[label] - base`, which must be a distance of a byte
unfoldable pub distance : Option ℕ → ℕ → Go ℕ
distance none base = panic
distance (some l) base = if ltb l base || ltb 255 (l - base) then panic else ret (l - base)

-- The loop of `resolve`
unfoldable pub resolve_fixups :
    List (Option ℕ) → List FilterFixup → List FilterInsn → Go (List FilterInsn)
unfolding distance index write
resolve_fixups labels [] ins = ret ins
resolve_fixups labels (fix ∷ fixups) ins =
    let rest = resolve_fixups labels fixups in
    do
      t ← index labels fix.on_true
      f ← index labels fix.on_false
      jt ← distance t (fix.place + 1)
      jf ← distance f (fix.place + 1)
      i ← index ins fix.place
      ins' ← write ins fix.place (record i { jt = jt; jf = jf })
      rest ins'

-- `discoveryFilter`, for the four depths of tags
unfoldable pub discovery_filter : ProtocolSet → ℕ → Go (List FilterInsn)
unfolding emit_depths emit resolve_fixups
discovery_filter protocols snaplen =
    let start : FilterBuilder = record { ins = []; labels = []; fixups = [] } in
    let built = emit_depths (max_vlan_tags + 1) 0 protocols snaplen start in
    let ended = emit (insn bpf_ret_k 0) built.1 in
    resolve_fixups ended.1.labels ended.1.fixups ended.1.ins
