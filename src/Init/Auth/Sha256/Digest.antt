-- ===== src/Init/Auth/Sha256/Digest.antt =====
-- The hash as FIPS 180-4 words it: the padded message, its blocks of 64 bytes, and the compression
-- function of init/src/auth.rs run over them in their order.
use slipper_kernel.Prelude.{
  ℕ, zero, suc, ◌*◌, ◌-◌, ◌/◌, ◌%◌, ◌≤◌, ◌^◌, List, ◌∷◌, ◌++◌, take, drop, length, replicate, ◌≡◌,
  refl, ap, ap₂, ◌∙◌, arith, take-append_le, drop-append_le, drop-drop, length-drop, zero,
}
use slipper_kernel.Init.Auth.Sha256.{
  sha256_compress, add_working, initial_state, to_be64, to_be_words,
}

-- the zeros that fill the message, with 0x80 behind it, up to 8 bytes before a multiple of 64
unfoldable pub filler : ℕ → ℕ
filler n = (119 - n % 64) % 64

unfoldable pub padded : List ℕ → List ℕ
unfolding filler to_be64
padded bytes =
    bytes ++ (0x80 ∷ (replicate (filler (length bytes)) 0 ++ to_be64 (length bytes * 8 % 2 ^ 64)))

-- `n` blocks of the message
unfoldable pub absorb : ℕ → List ℕ → List ℕ → List ℕ
absorb zero state message = state
absorb (suc n) state message = absorb n (sha256_compress state (take 64 message)) (drop 64 message)

unfoldable pub digest : List ℕ → List ℕ
unfolding padded absorb
digest bytes = to_be_words (absorb (length (padded bytes) / 64) initial_state (padded bytes))

pub absorb-snoc :
    (n : ℕ) (state message : List ℕ)
    → absorb (suc n) state message
      ≡ sha256_compress (absorb n state message) (take 64 (drop (n * 64) message))
unfolding absorb
absorb-snoc zero state message = refl
absorb-snoc (suc n) state message =
    absorb-snoc n (sha256_compress state (take 64 message)) (drop 64 message)
    ∙ ap
        (λ (rest : List ℕ).
          sha256_compress (absorb n (sha256_compress state (take 64 message)) (drop 64 message))
            (take 64 rest))
        (drop-drop (n * 64) 64 message ∙ ap (λ (i : ℕ). drop i message) (omega arith))

pub absorb-append :
    (n : ℕ) (state message rest : List ℕ)
    → n * 64 ≤ length message
    → absorb n state (message ++ rest) ≡ absorb n state message
unfolding absorb
absorb-append zero state message rest h = refl
absorb-append (suc n) state message rest h =
    ap₂ (λ (front back : List ℕ). absorb n (sha256_compress state front) back)
      (take-append_le message rest 64 (omega arith)) (drop-append_le message rest 64 (omega arith))
    ∙ absorb-append n (sha256_compress state (take 64 message)) (drop 64 message) rest
        (omega (arith, length-drop 64 message))

length-sha256_compress : (state block : List ℕ) → length (sha256_compress state block) ≡ 8
unfolding sha256_compress add_working
length-sha256_compress state block = refl

pub length-absorb :
    (n : ℕ) (state message : List ℕ) → length state ≡ 8 → length (absorb n state message) ≡ 8
unfolding absorb
length-absorb zero state message h = h
length-absorb (suc n) state message h =
    length-absorb n (sha256_compress state (take 64 message)) (drop 64 message)
      (length-sha256_compress state (take 64 message))
