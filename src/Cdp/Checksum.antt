-- ===== src/Cdp/Checksum.antt =====
-- `checksum16` of cdp.go: the one's complement sum of 16-bit words. `sum >> 16` is `sum / 65536`.
pub mod Sum
use omnidiscover.Prelude.{
  ℕ, zero, suc, ◌+◌, ◌*◌, ◌/◌, ◌%◌, ◌^◌, List, [], ◌∷◌, Bytes, ◌==◌, if◌then◌else◌,
}
use omnidiscover.Go.{Go, ret, Round, next, done, loop, ◌>>=◌}

-- The sum of the words in a `uint32`; a last odd byte is the high half of a word.
pub sum_words : ℕ → Bytes → ℕ
sum_words sum [] = sum
sum_words sum (x ∷ []) = (sum + x * 256) % 2 ^ 32
sum_words sum (x ∷ y ∷ b) = sum_words ((sum + (x * 256 + y)) % 2 ^ 32) b

-- A round of `for sum>>16 != 0`.
pub fold_carry : ℕ → Go (Round ℕ ℕ)
fold_carry sum = if sum / 65536 == 0 then ret (done sum) else ret (next (sum % 65536 + sum / 65536))

-- Two rounds fold any `uint32`, and a third finds nothing to fold.
pub fold_carries : ℕ → Go ℕ
unfolding fold_carry
fold_carries = loop 3 fold_carry

unfoldable pub checksum16 : Bytes → Go ℕ
unfolding sum_words fold_carries
checksum16 b = do sum ← fold_carries (sum_words 0 b); ret (sum % 65536)
