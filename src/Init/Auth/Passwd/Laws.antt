-- ===== src/Init/Auth/Passwd/Laws.antt =====
-- init/src/auth.rs: the numbers in the entries of /etc/passwd.
use slipper_kernel.Prelude.{
  ℕ, zero, suc, ◌+◌, ◌/◌, ◌%◌, ◌^◌, ◌<◌, List, [], ◌∷◌, ◌++◌, get_or, set, replicate, ◌==◌, ◌≡◌,
  refl, ap₂, ◌∙◌, arith, Bool-cases, inl, inr, Bool, true, false, if◌then◌else◌,
}
use native.Mathlib.Nat.{pow-suc}
use slipper_kernel.Init.Auth.Lines.{before_nul, fit}
use slipper_kernel.Init.Auth.Passwd.{dec_loop, format_dec, format_passwd_entry}

get_or-set : (xs : List ℕ) (k v : ℕ) → get_or (set xs (suc k) v) 0 0 ≡ get_or xs 0 0
get_or-set [] k v = refl
get_or-set (x ∷ xs) k v = refl

-- The first byte is not reached by a number of `k` digits.
first-dec_loop :
    (k val : ℕ) (buf : List ℕ)
    → val < 10 ^ k
    → get_or (dec_loop (suc k) val buf) 0 0 ≡ get_or buf 0 0
unfolding dec_loop
first-dec_loop zero val buf h =
    let none_left : (val == 0) ≡ true = ground arith in rw none_left refl
first-dec_loop (suc k) val buf h = elim (Bool-cases (val == 0)) [
  | inl done ↦ rw done refl
  | inr more ↦ rw more (
      first-dec_loop k (val / 10) (set buf (suc k) (b'0' + val % 10)) (omega (arith, pow-suc 10 k))
      ∙ get_or-set buf k (b'0' + val % 10))
]

before_nul-first : (xs : List ℕ) → get_or xs 0 0 ≡ 0 → before_nul xs ≡ []
unfolding before_nul
before_nul-first [] h = refl
before_nul-first (x ∷ xs) h = let e : (x == 0) ≡ true = ground arith in rw e refl

first-choice :
    (b : Bool) (xs ys : List ℕ)
    → get_or xs 0 0 ≡ 0
    → get_or ys 0 0 ≡ 0
    → get_or (if b then xs else ys) 0 0 ≡ 0
first-choice true xs ys h k = h
first-choice false xs ys h k = k

-- For every number of a u32 the first byte of format_dec is NUL.
first-format_dec : (n : ℕ) → n < 2 ^ 32 → get_or (format_dec n) 0 0 ≡ 0
unfolding format_dec
first-format_dec n h =
    first-choice (n == 0) (set (replicate 12 0) 10 b'0') (dec_loop 11 n (replicate 12 0)) refl
      (first-dec_loop 10 n (replicate 12 0) (omega arith))

before_nul-format_dec : (n : ℕ) → n < 2 ^ 32 → before_nul (format_dec n) ≡ []
before_nul-format_dec n h = before_nul-first (format_dec n) (first-format_dec n h)

-- format_passwd_entry writes no digit of the user's and the group's number, whatever they are:
-- format_dec puts the digits at the end of its buffer, and the copy stops at the first NUL.
pub format_passwd_entry_lem :
    (username home shell : List ℕ) (uid gid : ℕ)
    → uid < 2 ^ 32
    → gid < 2 ^ 32
    → format_passwd_entry username uid gid home shell
      ≡ fit 256 (username ++ (b':' ∷ b':' ∷ b':' ∷ (home ++ (b':' ∷ shell))))
unfolding format_passwd_entry
format_passwd_entry_lem username home shell uid gid small small' =
    ap₂
      (λ (u g : List ℕ).
        fit 256 (username ++ (b':' ∷ (u ++ (b':' ∷ (g ++ (b':' ∷ (home ++ (b':' ∷ shell)))))))))
      (before_nul-format_dec uid small) (before_nul-format_dec gid small')
