-- ===== src/Code.antt =====
-- The `int` that the functions of packages/c return: 0 for success, any other for a failure.
use zettahealthonramp.Base.{ℕ, zero, suc, ◌≡◌, refl, ◌↔◌, Bool, true, false, arith}

-- `negsuc n` is -(n + 1).
pub data ℤ : Type 0 where
  pos : ℕ → ℤ
  negsuc : ℕ → ℤ

abbrev pub is_zero : ℤ → Bool
is_zero (pos zero) = true
is_zero (pos (suc n)) = false
is_zero (negsuc n) = false

abbrev pub success : ℤ
success = pos 0

abbrev pub failure : ℤ
failure = pos 1

abbrev pub minus_one : ℤ
minus_one = negsuc 0

pub is_zero_iff : (c : ℤ) → (is_zero c ≡ true) ↔ (c ≡ success)
is_zero_iff (pos zero) = ((λ h. refl), (λ h. refl))
is_zero_iff (pos (suc n)) = ((λ h. absurd (ground arith)), (λ h. absurd (ground arith)))
is_zero_iff (negsuc n) = ((λ h. absurd (ground arith)), (λ h. absurd (ground arith)))
