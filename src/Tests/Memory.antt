-- ===== src/Tests/Memory.antt =====
-- core/src/string.rs on a concrete memory.
use slipper_kernel.Prelude.{ℕ, ◌≡◌}
use slipper_kernel.Core.Memory.{memmove}
use slipper_kernel.Core.Memory.Move.{memmove_lem}

-- Each address holds its own number.
abbrev numbered : ℕ → ℕ
numbered a = a

-- The ranges from 10 and from 12 overlap.
memmove_lem_example : memmove 12 10 5 numbered 13 ≡ 11
memmove_lem_example = memmove_lem 12 10 5 numbered 13
