-- ===== src/Init/Auth/Lines/Laws.antt =====
-- init/src/auth.rs: lines and fields that stand at the front of their text.
use slipper_kernel.Prelude.{
  ℕ, zero, suc, ◌-◌, ◌≤◌, List, [], ◌∷◌, ◌++◌, length, replicate, min, ◌==◌, ◌≡◌, ◌≢◌, refl, arith,
  some, false, true, All, take_all,
}
use slipper_kernel.Init.Auth.Lines.{lengthen, lines, in_front, split_at, before_nul, fit}

pub All-map {ℓ κ μ} :
    {A : Type ℓ} (P : A → Type κ) (Q : A → Type μ) (xs : List A)
    → ((x : A) → P x → Q x)
    → All P xs
    → All Q xs
All-map P Q [] f h = tt
All-map P Q (x ∷ xs) f (hx, hs) = (f x hx, All-map P Q xs f hs)

pub All-append {ℓ κ} :
    {A : Type ℓ} (P : A → Type κ) (xs ys : List A) → All P xs → All P ys → All P (xs ++ ys)
All-append P [] ys h k = k
All-append P (x ∷ xs) ys (hx, hs) k = (hx, All-append P xs ys hs k)

pub All-replicate {ℓ κ} :
    {A : Type ℓ} (P : A → Type κ) (n : ℕ) (x : A) → P x → All P (replicate n x)
All-replicate P zero x h = tt
All-replicate P (suc n) x h = (h, All-replicate P n x h)

==_other : (a b : ℕ) → a ≢ b → (a == b) ≡ false
==_other a b h = ground arith

pub lines-append :
    (xs rest : List ℕ) → All (λ x. x ≢ b'\n') xs → lines (xs ++ (b'\n' ∷ rest)) ≡ xs ∷ lines rest
unfolding lines
lines-append [] rest h = refl
lines-append (x ∷ xs) rest (hx, hs) =
    rw (lines-append xs rest hs, ==_other x b'\n' hx) (unfold lengthen in refl)

pub split_at-append :
    (c : ℕ) (xs rest : List ℕ)
    → All (λ x. x ≢ c) xs
    → split_at c (xs ++ (c ∷ rest)) ≡ some (xs, rest)
unfolding split_at
split_at-append c [] rest h = let e : (c == c) ≡ true = ground arith in rw e refl
split_at-append c (x ∷ xs) rest (hx, hs) =
    rw (split_at-append c xs rest hs, ==_other x c hx) (unfold in_front in refl)

pub before_nul-append :
    (xs rest : List ℕ) → All (λ x. x ≢ 0) xs → before_nul (xs ++ (0 ∷ rest)) ≡ xs
unfolding before_nul
before_nul-append [] rest h = refl
before_nul-append (x ∷ xs) rest (hx, hs) = rw (before_nul-append xs rest hs, ==_other x 0 hx) refl

pub fit_lem : (n : ℕ) (xs : List ℕ) → length xs ≤ n → fit n xs ≡ xs ++ replicate (n - length xs) 0
unfolding fit
fit_lem n xs h =
    let e : n - min n (length xs) ≡ n - length xs = omega arith in rw (take_all n xs h, e) refl
