-- ===== src/Init/Auth/Sha256/Final.antt =====
-- init/src/auth.rs: sha256_final, its padding loop, and the whole hash.
use slipper_kernel.Prelude.{
  ℕ, zero, suc, ◌+◌, ◌*◌, ◌-◌, ◌/◌, ◌%◌, ◌≤◌, ◌<◌, ◌^◌, List, [], ◌∷◌, ◌++◌, take, drop, length,
  replicate, ◌≡◌, ◌≢◌, refl, ap, ap₂, ◌∙◌, sym, subst, arith, ◌==◌, true, false, some,
  length-append, length-drop, take_all, drop_all, drop-append_le, append_assoc, append-nil,
}
use slipper_kernel.Core.Parser.{copy_at}
use slipper_kernel.Init.Auth.Sha256.{
  Sha256State, sha256_compress, initial_state, sha256_init, put_byte, flush, sha256_update,
  pad_loop, to_be32, to_be64, to_be_words, finish, sha256_final, sha256,
}
use slipper_kernel.Init.Auth.Sha256.Digest.{
  filler, padded, absorb, digest, absorb-snoc, absorb-append,
}
use slipper_kernel.Init.Auth.Sha256.Stream.{
  IsDigesting, IsUpdated, blocks_after, flush-IsDigesting, put_byte-IsDigesting, put_byte-buf_len,
  sha256_init-IsDigesting, sha256_update-IsUpdated,
}

ne→==_false : (a b : ℕ) → a ≢ b → (a == b) ≡ false
ne→==_false a b h = ground arith

filling : (x k : ℕ) → 1 ≤ x → x ≤ 64 → suc k ≡ (120 - x) % 64 → x % 64 ≢ 56
filling x k low high e = λ h. omega arith

-- the outcome of pad_loop: the message filled with `k` zeros, 56 bytes of it in the buffer
abbrev PadOutcome : List ℕ → ℕ → ℕ → Sha256State → Type 0
PadOutcome m k fuel s =
    (t : Sha256State) × (pad_loop fuel s ≡ some t)
    × ((n : ℕ) × IsDigesting (m ++ replicate k 0) n t)
    × (t.buf_len ≡ 56)

pad_loop_lem :
    (k fuel : ℕ) (m : List ℕ) (n : ℕ) (s : Sha256State)
    → IsDigesting m n s
    → 1 ≤ s.buf_len
    → s.buf_len ≤ 64
    → k ≡ (120 - s.buf_len) % 64
    → k < fuel
    → PadOutcome m k fuel s
unfolding pad_loop
pad_loop_lem k zero m n s digesting low high e enough = absurd (omega arith)
pad_loop_lem zero (suc fuel) m n s digesting low high e enough =
    let at : s.buf_len ≡ 56 = omega arith in
    let test : (s.buf_len % 64 == 56) ≡ true = rw at refl in
    (
      s,
      rw test refl,
      (n, subst (λ (t : List ℕ). IsDigesting t n s) (sym (append-nil m)) digesting),
      at,
    )
pad_loop_lem (suc k) (suc fuel) m n s digesting low high e enough =
    let (flushed, left) = flush-IsDigesting m n s digesting in
    let put : IsDigesting (m ++ (0 ∷ [])) (blocks_after n s) (put_byte 0 (flush s)) =
      put_byte-IsDigesting m (blocks_after n s) 0 (flush s) flushed (omega arith) in
    let (t, run, (n', padding), at) =
      pad_loop_lem k fuel (m ++ (0 ∷ [])) (blocks_after n s) (put_byte 0 (flush s)) put
        (omega (arith, put_byte-buf_len 0 (flush s))) (omega (arith, put_byte-buf_len 0 (flush s)))
        (omega (arith, put_byte-buf_len 0 (flush s))) (omega arith) in
    let test : (s.buf_len % 64 == 56) ≡ false =
      ne→==_false (s.buf_len % 64) 56 (filling s.buf_len k low high e) in
    (
      t,
      rw test run,
      (
        n',
        subst (λ (xs : List ℕ). IsDigesting xs n' t) (append_assoc m (0 ∷ []) (replicate k 0))
            padding,
      ),
      at,
    )

length-to_be64 : (x : ℕ) → length (to_be64 x) ≡ 8
unfolding to_be64 to_be32
length-to_be64 x = refl

-- The last block: the buffer's 56 bytes and the number of bits.
finish_lem :
    (m : List ℕ) (n bits : ℕ) (s : Sha256State)
    → IsDigesting m n s
    → s.buf_len ≡ 56
    → finish bits s ≡ to_be_words (absorb (suc n) initial_state (m ++ to_be64 bits))
unfolding IsDigesting finish
finish_lem m n bits s (size, count, bound, state, rest) at = ap to_be_words (
    ap₂ sha256_compress (state ∙ sym (absorb-append n initial_state m (to_be64 bits) (omega arith)))
      block
    ∙ sym (absorb-snoc n initial_state (m ++ to_be64 bits)))
  where
    tail : List ℕ
    tail = drop (n * 64) m ++ to_be64 bits

    front : take 56 s.buf ≡ drop (n * 64) m
    front = ap (λ (i : ℕ). take i s.buf) (sym at) ∙ rest

    none_behind : drop (56 + length (to_be64 bits)) s.buf ≡ []
    none_behind = drop_all s.buf (56 + length (to_be64 bits)) (omega (arith, length-to_be64 bits))

    block : copy_at 56 (to_be64 bits) s.buf ≡ take 64 (drop (n * 64) (m ++ to_be64 bits))
    block =
        ap₂ (λ (xs ys : List ℕ). xs ++ (to_be64 bits ++ ys)) front none_behind
        ∙ ap (λ (ys : List ℕ). drop (n * 64) m ++ ys) (append-nil (to_be64 bits))
        ∙ sym (
            take_all 64 tail (
              omega (
                arith,
                length-append (drop (n * 64) m) (to_be64 bits),
                length-drop (n * 64) m,
                length-to_be64 bits,
              )))
        ∙ ap (λ (xs : List ℕ). take 64 xs)
            (sym (drop-append_le m (to_be64 bits) (n * 64) (omega arith)))

count_of :
    (m : List ℕ) (n : ℕ) (s : Sha256State) → IsDigesting m n s → n * 64 + s.buf_len ≡ length m
unfolding IsDigesting
count_of m n s digesting = digesting.1

-- What is hashed in the end is the padded message, and its blocks are counted right.
padded_lem :
    (m : List ℕ) (k n : ℕ) (t : Sha256State)
    → k ≡ filler (length m)
    → IsDigesting ((m ++ (0x80 ∷ [])) ++ replicate k 0) n t
    → t.buf_len ≡ 56
    → to_be_words (
        absorb
          (suc n)
          initial_state
          (((m ++ (0x80 ∷ [])) ++ replicate k 0) ++ to_be64 (length m * 8 % 2 ^ 64)))
      ≡ digest m
unfolding digest padded
padded_lem m k n t e digesting at =
    ap₂ (λ (count : ℕ) (xs : List ℕ). to_be_words (absorb count initial_state xs)) count whole
  where
    bits : List ℕ
    bits = to_be64 (length m * 8 % 2 ^ 64)

    whole :
        ((m ++ (0x80 ∷ [])) ++ replicate k 0) ++ bits
        ≡ m ++ (0x80 ∷ (replicate (filler (length m)) 0 ++ bits))
    whole =
        append_assoc (m ++ (0x80 ∷ [])) (replicate k 0) bits
        ∙ append_assoc m (0x80 ∷ []) (replicate k 0 ++ bits)
        ∙ ap (λ (i : ℕ). m ++ (0x80 ∷ (replicate i 0 ++ bits))) e

    size : suc n * 64 ≡ length (m ++ (0x80 ∷ (replicate (filler (length m)) 0 ++ bits)))
    size = omega (
      arith,
      count_of ((m ++ (0x80 ∷ [])) ++ replicate k 0) n t digesting,
      length-append ((m ++ (0x80 ∷ [])) ++ replicate k 0) bits,
      length-to_be64 (length m * 8 % 2 ^ 64),
      ap length whole,
    )

    count : suc n ≡ length (m ++ (0x80 ∷ (replicate (filler (length m)) 0 ++ bits))) / 64
    count = omega (arith, size)

sha256_final-digest :
    (m : List ℕ) (s : Sha256State) → IsUpdated m s → sha256_final s ≡ some (digest m)
unfolding IsUpdated sha256_final filler
sha256_final-digest m s ((n, digesting), bound, total) =
    let k : ℕ = filler (length m) in
    let put : IsDigesting (m ++ (0x80 ∷ [])) n (put_byte 0x80 s) =
      put_byte-IsDigesting m n 0x80 s digesting bound in
    let (t, run, (n', padding), at) =
      pad_loop_lem k 65 (m ++ (0x80 ∷ [])) n (put_byte 0x80 s) put
        (omega (arith, put_byte-buf_len 0x80 s)) (omega (arith, put_byte-buf_len 0x80 s))
        (omega (arith, put_byte-buf_len 0x80 s, count_of m n s digesting)) (omega arith) in
    let bits : s.total_len * 8 % 2 ^ 64 ≡ length m * 8 % 2 ^ 64 = omega arith in
    rw (run, bits)
      (ap some (
        finish_lem ((m ++ (0x80 ∷ [])) ++ replicate k 0) n' (length m * 8 % 2 ^ 64) t padding at
        ∙ padded_lem m k n' t refl padding at))

-- sha256 computes, for every message, the SHA-256 digest of FIPS 180-4 over its compression
-- function: the message padded with 0x80, zeros and its number of bits, cut into blocks of 64
-- bytes, each compressed into the state in turn. The loop that pads it always ends.
pub sha256-digest : (bytes : List ℕ) → sha256 bytes ≡ some (digest bytes)
unfolding sha256 IsUpdated
sha256-digest bytes =
    sha256_final-digest bytes (sha256_update sha256_init bytes) (
      sha256_update-IsUpdated bytes [] sha256_init
        ((0, sha256_init-IsDigesting), omega arith, refl))
