-- ===== src/Core/Memory.antt =====
-- core/src/string.rs: memcpy, memset and memmove over a memory that gives each address its byte.
-- The addresses of a call do not wrap.
pub mod Move
use slipper_kernel.Prelude.{ℕ, zero, suc, ◌+◌, ltb, ◌==◌, if◌then◌else◌}

-- `*p = byte`
unfoldable pub store : ℕ → ℕ → (ℕ → ℕ) → ℕ → ℕ
store p byte memory a = if a == p then byte else memory a

-- `while i < n`, `left` bytes from index `i` on
unfoldable pub memcpy_from : ℕ → ℕ → ℕ → ℕ → (ℕ → ℕ) → ℕ → ℕ
unfolding store
memcpy_from dst src i zero memory = memory
memcpy_from dst src i (suc left) memory =
    memcpy_from dst src (i + 1) left (store (dst + i) (memory (src + i)) memory)

unfoldable pub memcpy : ℕ → ℕ → ℕ → (ℕ → ℕ) → ℕ → ℕ
unfolding memcpy_from
memcpy dst src n memory = memcpy_from dst src 0 n memory

unfoldable pub memset_from : ℕ → ℕ → ℕ → ℕ → (ℕ → ℕ) → ℕ → ℕ
unfolding store
memset_from s c i zero memory = memory
memset_from s c i (suc left) memory = memset_from s c (i + 1) left (store (s + i) c memory)

unfoldable pub memset : ℕ → ℕ → ℕ → (ℕ → ℕ) → ℕ → ℕ
unfolding memset_from
memset s c n memory = memset_from s c 0 n memory

-- `while i > 0` of memmove
unfoldable pub move_back : ℕ → ℕ → ℕ → (ℕ → ℕ) → ℕ → ℕ
unfolding store
move_back dst src zero memory = memory
move_back dst src (suc i) memory = move_back dst src i (store (dst + i) (memory (src + i)) memory)

unfoldable pub memmove : ℕ → ℕ → ℕ → (ℕ → ℕ) → ℕ → ℕ
unfolding memcpy move_back
memmove dst src n memory =
    if ltb dst src
    then memcpy dst src n memory
    else if ltb src dst
    then move_back dst src n memory
    else memory
