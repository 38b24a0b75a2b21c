-- ===== src/Core/Parser/Values.antt =====
-- core/src/parser.rs: the numbers that the integer readers give, by positional notation.
use slipper_kernel.Prelude.{ℕ, ◌+◌, ◌*◌, ◌^◌, ◌≤◌, ◌≡◌, arith, List, [], ◌∷◌, take, length}
use slipper_kernel.Core.Parser.{be32, be64, le32, le64}

-- The number whose bytes these are, the lowest first.
unfoldable pub le_value : List ℕ → ℕ
le_value [] = 0
le_value (b ∷ bytes) = b + 2 ^ 8 * le_value bytes

-- The number whose bytes are those of `high` and then these, the highest first.
unfoldable pub be_value : ℕ → List ℕ → ℕ
be_value high [] = high
be_value high (b ∷ bytes) = be_value (2 ^ 8 * high + b) bytes

pub le32-le_value : (p : List ℕ) → 4 ≤ length p → le32 p ≡ le_value (take 4 p)
unfolding le32 le_value
le32-le_value [] h = absurd (omega arith)
le32-le_value (a ∷ []) h = absurd (omega arith)
le32-le_value (a ∷ b ∷ []) h = absurd (omega arith)
le32-le_value (a ∷ b ∷ c ∷ []) h = absurd (omega arith)
le32-le_value (a ∷ b ∷ c ∷ d ∷ p) h = omega arith

pub be32-be_value : (p : List ℕ) → 4 ≤ length p → be32 p ≡ be_value 0 (take 4 p)
unfolding be32 be_value
be32-be_value [] h = absurd (omega arith)
be32-be_value (a ∷ []) h = absurd (omega arith)
be32-be_value (a ∷ b ∷ []) h = absurd (omega arith)
be32-be_value (a ∷ b ∷ c ∷ []) h = absurd (omega arith)
be32-be_value (a ∷ b ∷ c ∷ d ∷ p) h = omega arith

pub le64-le_value : (p : List ℕ) → 8 ≤ length p → le64 p ≡ le_value (take 8 p)
unfolding le64 le_value
le64-le_value [] h = absurd (omega arith)
le64-le_value (a ∷ []) h = absurd (omega arith)
le64-le_value (a ∷ b ∷ []) h = absurd (omega arith)
le64-le_value (a ∷ b ∷ c ∷ []) h = absurd (omega arith)
le64-le_value (a ∷ b ∷ c ∷ d ∷ p) h =
    let low = le32-le_value (a ∷ b ∷ c ∷ d ∷ p) (omega arith) in
    let high = le32-le_value p (omega arith) in omega (arith, low, high)

pub be64-be_value : (p : List ℕ) → 8 ≤ length p → be64 p ≡ be_value 0 (take 8 p)
unfolding be64 be32 be_value
be64-be_value [] h = absurd (omega arith)
be64-be_value (a ∷ []) h = absurd (omega arith)
be64-be_value (a ∷ b ∷ []) h = absurd (omega arith)
be64-be_value (a ∷ b ∷ c ∷ []) h = absurd (omega arith)
be64-be_value (a ∷ b ∷ c ∷ d ∷ []) h = absurd (omega arith)
be64-be_value (a ∷ b ∷ c ∷ d ∷ e ∷ []) h = absurd (omega arith)
be64-be_value (a ∷ b ∷ c ∷ d ∷ e ∷ f ∷ []) h = absurd (omega arith)
be64-be_value (a ∷ b ∷ c ∷ d ∷ e ∷ f ∷ g ∷ []) h = absurd (omega arith)
be64-be_value (a ∷ b ∷ c ∷ d ∷ e ∷ f ∷ g ∷ i ∷ p) h = omega arith
