-- ===== src/Core/Cursor.antt =====
-- core/src/parser.rs: `Cursor`, which reads a byte slice from a position on.
-- A read returns the value and the cursor after it; a position is a 64-bit number, and a sum wraps.
use slipper_kernel.Prelude.{
  ℕ, zero, suc, ◌+◌, ◌-◌, ◌%◌, ◌^◌, ◌≤◌, ◌<◌, ◌≡◌, refl, arith, List, [], ◌∷◌, take, drop, length,
  length-drop, get_elem?, Option, none, some, Bool, ltb, leb, if◌then◌else◌, Bool-cases, inl, inr,
}
use slipper_kernel.Core.Parser.{be32, be64, le32, le64, slice}
use slipper_kernel.Core.Parser.Values.{
  le_value, be_value, le32-le_value, le64-le_value, be32-be_value, be64-be_value,
}

pub record Cursor : Type 0 where
  pub buf : List ℕ
  pub pos : ℕ

-- `Cursor::new`
pub new : List ℕ → Cursor
new buf = record { buf = buf; pos = 0 }

pub remaining : Cursor → ℕ
remaining c = length c.buf - c.pos

pub eof : Cursor → Bool
eof c = leb (length c.buf) c.pos

-- `self.pos += n`
abbrev pub moved : ℕ → Cursor → Cursor
moved n c = record c { pos = (c.pos + n) % 2 ^ 64 }

-- `self.pos + n > self.buf.len()`
abbrev pub too_short : ℕ → Cursor → Bool
too_short n c = ltb (length c.buf) ((c.pos + n) % 2 ^ 64)

pub read_u8 : Cursor → Option (ℕ × Cursor)
read_u8 c = elim (get_elem? c.buf c.pos) [ none ↦ none | some v ↦ some (v, moved 1 c) ]

pub read_le32 : Cursor → Option (ℕ × Cursor)
read_le32 c = if too_short 4 c then none else some (le32 (drop c.pos c.buf), moved 4 c)

pub read_le64 : Cursor → Option (ℕ × Cursor)
read_le64 c = if too_short 8 c then none else some (le64 (drop c.pos c.buf), moved 8 c)

pub read_be32 : Cursor → Option (ℕ × Cursor)
read_be32 c = if too_short 4 c then none else some (be32 (drop c.pos c.buf), moved 4 c)

pub read_be64 : Cursor → Option (ℕ × Cursor)
read_be64 c = if too_short 8 c then none else some (be64 (drop c.pos c.buf), moved 8 c)

pub read_bytes : ℕ → Cursor → Option (List ℕ × Cursor)
read_bytes n c =
    if too_short n c then none else some (slice c.buf c.pos ((c.pos + n) % 2 ^ 64), moved n c)

pub skip : ℕ → Cursor → Option Cursor
skip n c = if too_short n c then none else some (moved n c)

-- the position lies in the buffer, whose length is a Rust slice's
unfoldable pub IsCursor : Cursor → Type 0
IsCursor c = (c.pos ≤ length c.buf) × (length c.buf < 2 ^ 63)

-- The `n` bytes from the position on.
abbrev pub next_bytes : ℕ → Cursor → List ℕ
next_bytes n c = take n (drop c.pos c.buf)

-- A read of `n` bytes gave the value and left the cursor `n` bytes on, or fewer than `n` were left.
unfoldable pub ReadOutcome : {A : Type 0} → ℕ → Cursor → A → Option (A × Cursor) → Type 0
ReadOutcome n c value none = remaining c < n
ReadOutcome n c value (some (v, c')) =
    (n ≤ remaining c) × (v ≡ value) × (c'.buf ≡ c.buf) × (c'.pos ≡ c.pos + n) × IsCursor c'

guarded_read :
    {A : Type 0} (n : ℕ) (c : Cursor) (v value : A)
    → IsCursor c
    → n < 2 ^ 63
    → (n ≤ remaining c → v ≡ value)
    → ReadOutcome n c value (if too_short n c then none else some (v, moved n c))
unfolding IsCursor ReadOutcome remaining
guarded_read n c v value (inside, size) hn right = elim (Bool-cases (too_short n c)) [
  | inl short ↦ rw short (ground arith)
  | inr fits ↦
      let enough : n ≤ length c.buf - c.pos = ground arith in
      rw fits (enough, right enough, refl, omega arith, (ground arith, size))
]

length-rest : (n : ℕ) (c : Cursor) → n ≤ remaining c → n ≤ length (drop c.pos c.buf)
unfolding remaining
length-rest n c h = omega (arith, length-drop c.pos c.buf)

-- The byte at an index is the first one from there on.
data ByteAt (xs : List ℕ) (i : ℕ) : Type 0 where
  past : length xs ≤ i → get_elem? xs i ≡ none → ByteAt xs i
  at : (v : ℕ) → i < length xs → get_elem? xs i ≡ some v → take 1 (drop i xs) ≡ v ∷ [] → ByteAt xs i

ByteAt-index : (xs : List ℕ) (i : ℕ) → ByteAt xs i
ByteAt-index [] i = past (omega arith) refl
ByteAt-index (x ∷ xs) zero = at x (omega arith) refl refl
ByteAt-index (x ∷ xs) (suc i) = later (ByteAt-index xs i)
  where
    later : ByteAt xs i → ByteAt (x ∷ xs) (suc i)
    later (past beyond e) = past (omega arith) e
    later (at v inside e first) = at v (omega arith) e first

byte_read : (c : Cursor) → IsCursor c → ReadOutcome 1 c (le_value (next_bytes 1 c)) (read_u8 c)
unfolding IsCursor ReadOutcome remaining read_u8 le_value
byte_read c (inside, size) = elim (ByteAt-index c.buf c.pos) [
  | past beyond e ↦ rw (e, read_u8) (omega arith)
  | at v left e first ↦
      rw (e, first, read_u8) (omega arith, omega arith, refl, omega arith, (omega arith, size))
]

sliced :
    (n : ℕ) (c : Cursor)
    → IsCursor c
    → n ≤ remaining c
    → slice c.buf c.pos ((c.pos + n) % 2 ^ 64) ≡ next_bytes n c
unfolding IsCursor remaining
sliced n c (inside, size) fits =
    let width : (c.pos + n) % 2 ^ 64 - c.pos ≡ n = omega arith in rw width refl

-- Each read of a number, of one byte or of four or eight in either order, and of `n` bytes for an
-- `n` below 2 ^ 63, works exactly when as many bytes are left. It gives the number that the next
-- bytes are in that order, or these bytes, and leaves the cursor as many bytes on and inside the
-- buffer.
pub reads_lem :
    (n : ℕ) (c : Cursor)
    → IsCursor c
    → n < 2 ^ 63
    → ReadOutcome 1 c (le_value (next_bytes 1 c)) (read_u8 c)
      × ReadOutcome 4 c (le_value (next_bytes 4 c)) (read_le32 c)
      × ReadOutcome 8 c (le_value (next_bytes 8 c)) (read_le64 c)
      × ReadOutcome 4 c (be_value 0 (next_bytes 4 c)) (read_be32 c)
      × ReadOutcome 8 c (be_value 0 (next_bytes 8 c)) (read_be64 c)
      × ReadOutcome n c (next_bytes n c) (read_bytes n c)
unfolding read_le32 read_le64 read_be32 read_be64 read_bytes
reads_lem n c h hn =
    let rest = drop c.pos c.buf in
    (
      byte_read c h,
      guarded_read 4 c (le32 rest) (le_value (take 4 rest)) h (omega arith)
          (λ fits. le32-le_value rest (length-rest 4 c fits)),
      guarded_read 8 c (le64 rest) (le_value (take 8 rest)) h (omega arith)
          (λ fits. le64-le_value rest (length-rest 8 c fits)),
      guarded_read 4 c (be32 rest) (be_value 0 (take 4 rest)) h (omega arith)
          (λ fits. be32-be_value rest (length-rest 4 c fits)),
      guarded_read 8 c (be64 rest) (be_value 0 (take 8 rest)) h (omega arith)
          (λ fits. be64-be_value rest (length-rest 8 c fits)),
      guarded_read n c (slice c.buf c.pos ((c.pos + n) % 2 ^ 64)) (take n rest) h hn (sliced n c h),
    )
