-- ===== src/Init/Auth/Lines.antt =====
-- init/src/auth.rs: the loops over the lines of a file, and the search for a byte.
pub mod Laws
use slipper_kernel.Prelude.{
  ℕ, zero, suc, ◌-◌, List, [], ◌∷◌, ◌++◌, length, take, replicate, min, ◌==◌, if◌then◌else◌, Option,
  none, some,
}

-- `c` in front of the first line
unfoldable pub lengthen : ℕ → List (List ℕ) → List (List ℕ)
lengthen c [] = (c ∷ []) ∷ []
lengthen c (line ∷ rest) = (c ∷ line) ∷ rest

-- The lines that `while pos < data.len()` goes through: each ends before a newline or at the end.
unfoldable pub lines : List ℕ → List (List ℕ)
unfolding lengthen
lines [] = []
lines (c ∷ bytes) = let rest = lines bytes in if c == b'\n' then [] ∷ rest else lengthen c rest

unfoldable pub in_front : ℕ → Option (List ℕ × List ℕ) → Option (List ℕ × List ℕ)
in_front x none = none
in_front x (some (before, after)) = some (x ∷ before, after)

-- `s.iter().position(|&b| b == c)`: the bytes before it and those behind it
unfoldable pub split_at : ℕ → List ℕ → Option (List ℕ × List ℕ)
unfolding in_front
split_at c [] = none
split_at c (x ∷ bytes) =
    let rest = split_at c bytes in if x == c then some ([], bytes) else in_front x rest

-- The bytes before the first NUL, or all of them.
unfoldable pub before_nul : List ℕ → List ℕ
before_nul [] = []
before_nul (x ∷ bytes) = let rest = before_nul bytes in if x == 0 then [] else x ∷ rest

-- An array of `n` zeros into which the bytes are written as far as they fit.
unfoldable pub fit : ℕ → List ℕ → List ℕ
fit n bytes = take n bytes ++ replicate (n - min n (length bytes)) 0
