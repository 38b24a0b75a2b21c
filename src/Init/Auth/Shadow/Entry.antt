-- ===== src/Init/Auth/Shadow/Entry.antt =====
-- init/src/auth.rs: the fields of an entry of /etc/shadow, and how long they are.
use slipper_kernel.Prelude.{
  ℕ, zero, suc, ◌+◌, ◌*◌, ◌-◌, ◌/◌, ◌≤◌, ◌<◌, List, [], ◌∷◌, ◌++◌, length, take, replicate, min,
  ◌≡◌, ◌≢◌, refl, ap, ap₂, ◌∙◌, sym, arith, All, some, length-append, length-replicate, take_all,
  append_assoc, replicate-add, subst,
}
use slipper_kernel.Init.Auth.Sha256.{initial_state, to_be32, to_be_words}
use slipper_kernel.Init.Auth.Sha256.Digest.{absorb, digest, padded, length-absorb}
use slipper_kernel.Init.Auth.Hex.{hex_digits}
use slipper_kernel.Init.Auth.Hex.Laws.{take-bytes_to_hex, length-hex_digits, hex_digits-low}
use slipper_kernel.Init.Auth.Lines.{split_at, before_nul}
use slipper_kernel.Init.Auth.Lines.Laws.{
  All-map, All-append, split_at-append, before_nul-append, fit_lem,
}
use slipper_kernel.Init.Auth.Shadow.{
  next_seed, salt_bytes, generate_salt, hash_field, shadow_entry, shadow_value,
}

-- `n` bytes
unfoldable pub IsBytes : ℕ → List ℕ → Type 0
IsBytes n xs = (length xs ≡ n) × All (λ x. x < 256) xs

salt_bytes-IsBytes : (n seed : ℕ) → IsBytes n (salt_bytes n seed)
unfolding IsBytes salt_bytes
salt_bytes-IsBytes zero seed = (refl, tt)
salt_bytes-IsBytes (suc n) seed =
    let (size, small) = salt_bytes-IsBytes n (next_seed seed) in (ap suc size, (omega arith, small))

pub generate_salt-IsBytes : (pid : ℕ) → IsBytes 8 (generate_salt pid)
unfolding generate_salt
generate_salt-IsBytes pid = salt_bytes-IsBytes 8 (next_seed pid)

to_be_words-IsBytes : (words : List ℕ) → IsBytes (4 * length words) (to_be_words words)
unfolding IsBytes to_be_words to_be32
to_be_words-IsBytes [] = (refl, tt)
to_be_words-IsBytes (x ∷ words) =
    let (size, small) = to_be_words-IsBytes words in
    (omega arith, (omega arith, (omega arith, (omega arith, (omega arith, small)))))

pub digest-IsBytes : (bytes : List ℕ) → IsBytes 32 (digest bytes)
unfolding digest
digest-IsBytes bytes =
    let n : ℕ = length (padded bytes) / 64 in
    let words : 4 * length (absorb n initial_state (padded bytes)) ≡ 32 =
      omega (arith, length-absorb n initial_state (padded bytes) refl) in
    subst (λ (size : ℕ). IsBytes size (to_be_words (absorb n initial_state (padded bytes)))) words
      (to_be_words-IsBytes (absorb n initial_state (padded bytes)))

pub hash_field-digits :
    (salt hash : List ℕ)
    → IsBytes 8 salt
    → IsBytes 32 hash
    → hash_field salt hash ≡ b'$' ∷ b'5' ∷ b'$' ∷ (hex_digits salt ++ (b'$' ∷ hex_digits hash))
unfolding IsBytes hash_field
hash_field-digits salt hash (size, small) (size', small') =
    rw
      (
        take-bytes_to_hex salt 16 (omega arith) (omega arith),
        take-bytes_to_hex hash 64 (omega arith) (omega arith),
      )
      refl

pub length-hash_field :
    (salt hash : List ℕ) → IsBytes 8 salt → IsBytes 32 hash → length (hash_field salt hash) ≡ 84
unfolding IsBytes
length-hash_field salt hash (size, small) (size', small') =
    rw (hash_field-digits salt hash (size, small) (size', small')) (
      omega (
        arith,
        length-append (hex_digits salt) (b'$' ∷ hex_digits hash),
        length-hex_digits salt,
        length-hex_digits hash,
      ))

pub hash_field-low :
    (salt hash : List ℕ)
    → IsBytes 8 salt
    → IsBytes 32 hash
    → All (λ x. 36 ≤ x) (hash_field salt hash)
unfolding IsBytes
hash_field-low salt hash (size, small) (size', small') =
    subst (All (λ x. 36 ≤ x)) (sym (hash_field-digits salt hash (size, small) (size', small'))) (
      omega arith,
      (
        omega arith,
        (
          omega arith,
          All-append (λ x. 36 ≤ x) (hex_digits salt) (b'$' ∷ hex_digits hash)
              (digits_low salt small) (omega arith, digits_low hash small'),
        ),
      ),
    )
  where
    digits_low : (bytes : List ℕ) → All (λ x. x < 256) bytes → All (λ x. 36 ≤ x) (hex_digits bytes)
    digits_low bytes h =
        All-map (λ x. 48 ≤ x) (λ x. 36 ≤ x) (hex_digits bytes) (λ x low. omega arith)
          (hex_digits-low bytes h)

-- the field with the zeros that fill the 128 bytes
pub shadow_entry_lem :
    (username salt hash : List ℕ)
    → length username ≤ 43
    → IsBytes 8 salt
    → IsBytes 32 hash
    → shadow_entry username salt hash
      ≡ username ++ (b':' ∷ (hash_field salt hash ++ replicate (43 - length username) 0))
unfolding shadow_entry
shadow_entry_lem username salt hash short is_salt is_hash =
    let size : length (username ++ (b':' ∷ hash_field salt hash)) ≡ length username + 85 = omega (
      arith,
      length-append username (b':' ∷ hash_field salt hash),
      length-hash_field salt hash is_salt is_hash,
    ) in
    let left : 128 - (length username + 85) ≡ 43 - length username = omega arith in
    fit_lem 128 (username ++ (b':' ∷ hash_field salt hash)) (omega arith)
    ∙ rw (size, left)
        (append_assoc username (b':' ∷ hash_field salt hash) (replicate (43 - length username) 0))

pub split_at-shadow_entry :
    (username salt hash : List ℕ)
    → length username ≤ 43
    → All (λ x. x ≢ b':') username
    → IsBytes 8 salt
    → IsBytes 32 hash
    → split_at b':' (shadow_entry username salt hash)
      ≡ some (username, hash_field salt hash ++ replicate (43 - length username) 0)
split_at-shadow_entry username salt hash short plain is_salt is_hash =
    rw (shadow_entry_lem username salt hash short is_salt is_hash) (
      split_at-append b':' username (hash_field salt hash ++ replicate (43 - length username) 0)
        plain)

-- What read_shadow_password returns of the entry is the field, up to the first NUL.
pub before_nul-shadow_value :
    (salt hash : List ℕ) (n : ℕ)
    → n ≤ 43
    → IsBytes 8 salt
    → IsBytes 32 hash
    → before_nul (shadow_value (hash_field salt hash ++ replicate n 0)) ≡ hash_field salt hash
unfolding shadow_value
before_nul-shadow_value salt hash n short is_salt is_hash =
    ap before_nul whole
    ∙ before_nul-append (hash_field salt hash) (replicate 43 0) (
        All-map (λ x. 36 ≤ x) (λ x. x ≢ 0) (hash_field salt hash) (λ x low h. omega arith)
          (hash_field-low salt hash is_salt is_hash))
  where
    field : List ℕ
    field = hash_field salt hash

    size : length (field ++ replicate n 0) ≡ 84 + n
    size = omega (
      arith,
      length-append field (replicate n 0),
      length-hash_field salt hash is_salt is_hash,
      length-replicate {A = ℕ} n 0,
    )

    whole :
        take 127 (field ++ replicate n 0)
          ++ replicate (128 - min (length (field ++ replicate n 0)) 127) 0
        ≡ field ++ (0 ∷ replicate 43 0)
    whole =
        ap₂ (λ (xs : List ℕ) (k : ℕ). xs ++ replicate k 0)
          (take_all 127 (field ++ replicate n 0) (omega (arith, size)))
          (let k : 128 - min (length (field ++ replicate n 0)) 127 ≡ 44 - n = omega (arith, size) in
            k)
        ∙ append_assoc field (replicate n 0) (replicate (44 - n) 0)
        ∙ ap (λ (xs : List ℕ). field ++ xs)
            (sym (replicate-add n (44 - n) 0)
              ∙ ap (λ (k : ℕ). replicate k 0) (let k : n + (44 - n) ≡ 44 = omega arith in k))
