-- ===== src/Init/Auth/Shadow/Verify.antt =====
-- init/src/auth.rs: which passwords verify_shadow_password accepts.
use slipper_kernel.Prelude.{
  ℕ, ◌≤◌, ◌<◌, List, ◌∷◌, ◌++◌, length, replicate, ltb, Bool, true, false, ◌≡◌, ◌≢◌, ◌↔◌, refl, ap,
  ◌∙◌, sym, arith, All, some, take_all,
}
use slipper_kernel.Init.Auth.Sha256.Digest.{digest}
use slipper_kernel.Init.Auth.Sha256.Final.{sha256-digest}
use slipper_kernel.Init.Auth.Hex.{hex_digits, const_time_eq, decode}
use slipper_kernel.Init.Auth.Hex.Laws.{
  take-bytes_to_hex, length-hex_digits, hex_digits-low, hex_decode_8-hex_digits, decode-hex_digits,
  const_time_eq_lem,
}
use slipper_kernel.Init.Auth.Lines.{split_at, before_nul}
use slipper_kernel.Init.Auth.Lines.Laws.{All-map, split_at-append}
use slipper_kernel.Init.Auth.Shadow.{
  combined, verify_combined, hash_field, verify_hash, verify_fields, verify_stored, shadow_value,
}
use slipper_kernel.Init.Auth.Shadow.Entry.{
  IsBytes, digest-IsBytes, hash_field-digits, before_nul-shadow_value,
}

hex_digits-injective :
    (xs ys : List ℕ)
    → length xs ≡ length ys
    → All (λ x. x < 256) xs
    → All (λ x. x < 256) ys
    → hex_digits xs ≡ hex_digits ys
    → xs ≡ ys
hex_digits-injective xs ys size small small' e =
    sym (decode-hex_digits xs small)
    ∙ ap (λ (hex : List ℕ). decode (length xs) hex) e
    ∙ ap (λ (n : ℕ). decode n (hex_digits ys)) size
    ∙ decode-hex_digits ys small'

verify_hash_lem :
    (salt hash password : List ℕ)
    → IsBytes 8 salt
    → IsBytes 32 hash
    → verify_hash (hex_digits salt) (hex_digits hash) password
      ≡ some (const_time_eq (hex_digits (digest (verify_combined password salt))) (hex_digits hash))
unfolding verify_hash verify_combined IsBytes
verify_hash_lem salt hash password (size, small) (size', small') =
    let d : List ℕ = digest (verify_combined password salt) in
    let (size'', small'') = digest-IsBytes (verify_combined password salt) in
    rw
      (
        hex_decode_8-hex_digits salt size small,
        sha256-digest (verify_combined password salt),
        take-bytes_to_hex d 64 (omega arith) (omega arith),
        take_all 64 (hex_digits hash) (omega (arith, length-hex_digits hash)),
      )
      refl

verify_fields_lem :
    (salt hash password : List ℕ)
    → IsBytes 8 salt
    → IsBytes 32 hash
    → verify_fields (some (hex_digits salt, hex_digits hash)) password
      ≡ some (const_time_eq (hex_digits (digest (verify_combined password salt))) (hex_digits hash))
unfolding verify_fields IsBytes
verify_fields_lem salt hash password (size, small) (size', small') =
    let n : length (hex_digits salt) ≡ 16 = omega (arith, length-hex_digits salt) in
    let k : length (hex_digits hash) ≡ 64 = omega (arith, length-hex_digits hash) in
    rw (n, k) (verify_hash_lem salt hash password (size, small) (size', small'))

pub verify_stored_lem :
    (salt hash stored password : List ℕ)
    → IsBytes 8 salt
    → IsBytes 32 hash
    → before_nul stored ≡ hash_field salt hash
    → verify_stored stored password
      ≡ some (const_time_eq (hex_digits (digest (verify_combined password salt))) (hex_digits hash))
unfolding verify_stored IsBytes
verify_stored_lem salt hash stored password is_salt is_hash e =
    rw (e, hash_field-digits salt hash is_salt is_hash)
      (rw (long, fields) (verify_fields_lem salt hash password is_salt is_hash))
  where
    rest : List ℕ
    rest = hex_digits salt ++ (b'$' ∷ hex_digits hash)

    long : ltb (length (b'$' ∷ b'5' ∷ b'$' ∷ rest)) 3 ≡ false
    long = ground arith

    fields : split_at b'$' rest ≡ some (hex_digits salt, hex_digits hash)
    fields = split_at-append b'$' (hex_digits salt) (hex_digits hash) (
        All-map (λ x. 48 ≤ x) (λ x. x ≢ b'$') (hex_digits salt) (λ x low h. omega arith)
          (hex_digits-low salt is_salt.1))

some_injective : (b c : Bool) → some b ≡ some c → b ≡ c
some_injective b c e = cc

-- A stored entry of a salt and the hash of a password accepts exactly the passwords whose hash with
-- that salt is the same.
pub verify_stored_iff :
    (salt password tried : List ℕ) (n : ℕ)
    → n ≤ 43
    → IsBytes 8 salt
    → (verify_stored
          (shadow_value (hash_field salt (digest (combined password salt)) ++ replicate n 0))
          tried
        ≡ some true)
      ↔ (digest (verify_combined tried salt) ≡ digest (combined password salt))
verify_stored_iff salt password tried n short is_salt = (forth, back)
  where
    hash : List ℕ
    hash = digest (combined password salt)

    d : List ℕ
    d = digest (verify_combined tried salt)

    stored : List ℕ
    stored = shadow_value (hash_field salt hash ++ replicate n 0)

    decided : verify_stored stored tried ≡ some (const_time_eq (hex_digits d) (hex_digits hash))
    decided =
        verify_stored_lem salt hash stored tried is_salt (digest-IsBytes (combined password salt)) (
          before_nul-shadow_value salt hash n short is_salt
            (digest-IsBytes (combined password salt)))

    injective : IsBytes 32 d → IsBytes 32 hash → hex_digits d ≡ hex_digits hash → d ≡ hash
    injective =
        unfold IsBytes in λ is_d is_hash. hex_digits-injective d hash (omega arith) is_d.1 is_hash.1

    forth : verify_stored stored tried ≡ some true → d ≡ hash
    forth h =
        injective (digest-IsBytes (verify_combined tried salt))
          (digest-IsBytes (combined password salt))
          ((const_time_eq_lem (hex_digits d) (hex_digits hash)).0 (
            some_injective (const_time_eq (hex_digits d) (hex_digits hash)) true (sym decided ∙ h)))

    back : d ≡ hash → verify_stored stored tried ≡ some true
    back e =
        decided ∙ ap some ((const_time_eq_lem (hex_digits d) (hex_digits hash)).1 (ap hex_digits e))
