-- ===== src/Init/Auth/Sha256/Stream.antt =====
-- init/src/auth.rs: the bytes that the buffer and the hash state stand for, through sha256_update.
use slipper_kernel.Prelude.{
  ℕ, suc, ◌+◌, ◌*◌, ◌%◌, ◌≤◌, ◌<◌, ◌^◌, List, [], ◌∷◌, ◌++◌, take, drop, length, set, ◌≡◌, refl, ap,
  ap₂, ◌∙◌, sym, subst, arith, ◌==◌, if◌then◌else◌, Bool-cases, inl, inr, length-set, length-append,
  take-set, take_all, drop_all, drop-append_le, append_assoc, append-nil,
}
use slipper_kernel.Init.Auth.Sha256.{
  Sha256State, sha256_compress, initial_state, sha256_init, put_byte, flush, update_byte,
  sha256_update,
}
use slipper_kernel.Init.Auth.Sha256.Digest.{absorb, absorb-snoc, absorb-append}

-- The state after the bytes of `m`, `n` blocks of which have been compressed.
unfoldable pub IsDigesting : List ℕ → ℕ → Sha256State → Type 0
IsDigesting m n s =
    (length s.buf ≡ 64)
    × (n * 64 + s.buf_len ≡ length m)
    × (s.buf_len ≤ 64)
    × (s.state ≡ absorb n initial_state m)
    × (take s.buf_len s.buf ≡ drop (n * 64) m)

pub sha256_init-IsDigesting : IsDigesting [] 0 sha256_init
unfolding IsDigesting sha256_init absorb
sha256_init-IsDigesting = (refl, omega arith, omega arith, refl, refl)

pub put_byte-buf_len : (b : ℕ) (s : Sha256State) → (put_byte b s).buf_len ≡ s.buf_len + 1
unfolding put_byte
put_byte-buf_len b s = refl

pub put_byte-IsDigesting :
    (m : List ℕ) (n b : ℕ) (s : Sha256State)
    → IsDigesting m n s
    → s.buf_len < 64
    → IsDigesting (m ++ (b ∷ [])) n (put_byte b s)
unfolding IsDigesting put_byte
put_byte-IsDigesting m n b s (size, count, bound, state, rest) h =
    let next : s.buf_len + 1 ≡ suc s.buf_len = omega arith in
    (
      length-set s.buf s.buf_len b ∙ size,
      omega (arith, length-append m (b ∷ [])),
      omega arith,
      state ∙ sym (absorb-append n initial_state m (b ∷ []) (omega arith)),
      ap (λ (i : ℕ). take i (set s.buf s.buf_len b)) next
          ∙ take-set s.buf s.buf_len b (omega arith)
          ∙ ap (λ (t : List ℕ). t ++ (b ∷ [])) rest
          ∙ sym (drop-append_le m (b ∷ []) (n * 64) (omega arith)),
    )

-- `n` after `flush`
pub blocks_after : ℕ → Sha256State → ℕ
blocks_after n s = if s.buf_len == 64 then suc n else n

pub flush-IsDigesting :
    (m : List ℕ) (n : ℕ) (s : Sha256State)
    → IsDigesting m n s
    → IsDigesting m (blocks_after n s) (flush s) × ((flush s).buf_len ≡ s.buf_len % 64)
unfolding IsDigesting flush blocks_after
flush-IsDigesting m n s (size, count, bound, state, rest) = elim (Bool-cases (s.buf_len == 64)) [
  | inl full ↦
      let e : s.buf_len ≡ 64 = ground arith in
      let whole : s.buf ≡ take 64 (drop (n * 64) m) =
        sym (take_all 64 s.buf (omega arith))
        ∙ ap (λ (xs : List ℕ). take 64 xs)
            (sym (take_all 64 s.buf (omega arith)) ∙ ap (λ (i : ℕ). take i s.buf) (sym e) ∙ rest) in
      rw full (
        (
          size,
          omega arith,
          omega arith,
          ap₂ sha256_compress state whole ∙ sym (absorb-snoc n initial_state m),
          sym (drop_all m (suc n * 64) (omega arith)),
        ),
        omega arith,
      )
  | inr partial ↦
      let less : s.buf_len < 64 = ground arith in
      rw partial ((size, count, bound, state, rest), omega arith)
]

flush-total_len : (s : Sha256State) → (flush s).total_len ≡ s.total_len
unfolding flush
flush-total_len s = elim (Bool-cases (s.buf_len == 64)) [
  | inl full ↦ rw full refl
  | inr partial ↦ rw partial refl
]

-- The state after the bytes of `m` that sha256_update leaves: at most 63 bytes wait in the buffer.
unfoldable pub IsUpdated : List ℕ → Sha256State → Type 0
IsUpdated m s = ((n : ℕ) × IsDigesting m n s) × (s.buf_len < 64) × (s.total_len ≡ length m % 2 ^ 64)

update_byte-IsUpdated :
    (m : List ℕ) (b : ℕ) (s : Sha256State)
    → IsUpdated m s
    → IsUpdated (m ++ (b ∷ [])) (update_byte b s)
unfolding IsUpdated update_byte
update_byte-IsUpdated m b s ((n, digesting), bound, total) =
    let p : Sha256State = record (put_byte b s) { total_len = (s.total_len + 1) % 2 ^ 64 } in
    let put : IsDigesting (m ++ (b ∷ [])) n p =
      unfold IsDigesting in put_byte-IsDigesting m n b s digesting bound in
    let (flushed, left) = flush-IsDigesting (m ++ (b ∷ [])) n p put in
    (
      (blocks_after n p, flushed),
      omega arith,
      flush-total_len p ∙ omega (arith, length-append m (b ∷ [])),
    )

pub sha256_update-IsUpdated :
    (bytes m : List ℕ) (s : Sha256State)
    → IsUpdated m s
    → IsUpdated (m ++ bytes) (sha256_update s bytes)
unfolding sha256_update
sha256_update-IsUpdated [] m s h = subst (λ (t : List ℕ). IsUpdated t s) (sym (append-nil m)) h
sha256_update-IsUpdated (b ∷ bytes) m s h =
    subst (λ (t : List ℕ). IsUpdated t (sha256_update (update_byte b s) bytes))
      (append_assoc m (b ∷ []) bytes)
      (sha256_update-IsUpdated bytes (m ++ (b ∷ [])) (update_byte b s)
        (update_byte-IsUpdated m b s h))
