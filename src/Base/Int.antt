-- ===== src/Base/Int.antt =====
-- Signed integers over the native numbers, for the `int64` fields that a server may set below 0.
use incusos_builder.Base.{ℕ, zero, suc, Bool, true, false, ltb}

-- `negsuc n` is -(n + 1).
pub data ℤ : Type 0 where
  pos : ℕ → ℤ
  negsuc : ℕ → ℤ

-- `z <= 0`.
abbrev pub is_nonpositive : ℤ → Bool
is_nonpositive (pos n) = elim n [ zero ↦ true | suc m ↦ false ]
is_nonpositive (negsuc n) = true

-- `z < 0`.
abbrev pub is_negative : ℤ → Bool
is_negative (pos n) = false
is_negative (negsuc n) = true

-- `z > k` for a constant `k` of at least 0.
abbrev pub exceeds : ℤ → ℕ → Bool
exceeds (pos n) k = ltb k n
exceeds (negsuc n) k = false
