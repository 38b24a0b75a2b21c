-- ===== src/Fs/Vfs/Fd/Table.antt =====
-- kernel/src/fs/vfs/ops.rs, file.rs and dup.rs: descriptors are handed out, looked up and given back.
use slipper_kernel.Prelude.{
  ℕ, zero, suc, ◌+◌, ◌-◌, ◌≤◌, ◌<◌, ◌≡◌, ◌≢◌, refl, ap, subst, sym, ◌∙◌, arith, List, [], ◌∷◌, ◌++◌,
  take, drop, take-append-drop, length, get_elem?, some, Bool, true, false, not, ltb, if◌then◌else◌,
  Bool-cases, inl, inr,
}
use slipper_kernel.Core.Errno.{KResult, ok, err, no_mem}
use slipper_kernel.Fs.Vfs.Fd.{
  VfsFd, Vfs, vfs_max_fds, table, with_table, update_fd, claim, claim_from, first_fd, alloc_fd,
}

-- What the loop of `alloc_fd` may give on the table from index `i` on: a free entry is claimed and
-- no other one changes, or none is free.
ClaimOutcome : ℕ → ℕ → List VfsFd → KResult ℕ × List VfsFd → Type 0
ClaimOutcome perms i fds (ok idx, fds') =
    (k : ℕ) × (fd : VfsFd) × (idx ≡ i + k)
    × (get_elem? fds k ≡ some fd)
    × (fd.used ≡ false)
    × (get_elem? fds' k ≡ some (claim perms fd))
    × ((j : ℕ) → j ≢ k → get_elem? fds' j ≡ get_elem? fds j)
    × ((j : ℕ) (f : VfsFd) → j < k → get_elem? fds j ≡ some f → f.used ≡ true)
ClaimOutcome perms i fds (err e, fds') =
    (e ≡ no_mem)
    × (fds' ≡ fds)
    × ((j : ℕ) (fd : VfsFd) → get_elem? fds j ≡ some fd → fd.used ≡ true)

claim_later :
    (perms i : ℕ) (fd : VfsFd) (rest : List VfsFd) (out : KResult ℕ × List VfsFd)
    → fd.used ≡ true
    → ClaimOutcome perms (i + 1) rest out
    → ClaimOutcome perms i (fd ∷ rest) (out.0, fd ∷ out.1)
unfolding ClaimOutcome
claim_later perms i fd rest (ok idx, rest') taken (k, found, at, was, clear, now, others, before) =
    (suc k, found, omega arith, was, clear, now, later, lower)
  where
    lower : (j : ℕ) (f : VfsFd) → j < suc k → get_elem? (fd ∷ rest) j ≡ some f → f.used ≡ true
    lower zero f lt h = let e : fd ≡ f = cc in subst (λ (g : VfsFd). g.used ≡ true) e taken
    lower (suc j) f lt h = before j f (omega arith) h

    later : (j : ℕ) → j ≢ suc k → get_elem? (fd ∷ rest') j ≡ get_elem? (fd ∷ rest) j
    later zero ne = refl
    later (suc j) ne = others j (λ e. ne (ap suc e))
claim_later perms i fd rest (err e, rest') taken (code, same, all) =
    (code, ap (λ t. fd ∷ t) same, each)
  where
    each : (j : ℕ) (f : VfsFd) → get_elem? (fd ∷ rest) j ≡ some f → f.used ≡ true
    each zero f h = let e : fd ≡ f = cc in subst (λ (g : VfsFd). g.used ≡ true) e taken
    each (suc j) f h = all j f h

claim_from_lem :
    (perms i : ℕ) (fds : List VfsFd) → ClaimOutcome perms i fds (claim_from perms fds i)
unfolding ClaimOutcome claim_from
claim_from_lem perms i [] = (refl, refl, λ j fd h. absurd cc)
claim_from_lem perms i (fd ∷ rest) = elim (Bool-cases fd.used) [
  | inl taken ↦
      subst
        (λ b.
          ClaimOutcome perms i (fd ∷ rest)
            (if not b then (ok i, claim perms fd ∷ rest) else (later.0, fd ∷ later.1)))
        (sym taken) (claim_later perms i fd rest later taken (claim_from_lem perms (i + 1) rest))
  | inr clear ↦
      subst
        (λ b.
          ClaimOutcome perms i (fd ∷ rest)
            (if not b then (ok i, claim perms fd ∷ rest) else (later.0, fd ∷ later.1)))
        (sym clear)
        (zero, fd, omega arith, refl, clear, refl, others, λ j f lt h. absurd (omega arith))
]
  where
    later : KResult ℕ × List VfsFd
    later = claim_from perms rest (i + 1)

    others : (j : ℕ) → j ≢ 0 → get_elem? (claim perms fd ∷ rest) j ≡ get_elem? (fd ∷ rest) j
    others zero ne = absurd (ne refl)
    others (suc j) ne = refl

pub table-with_table : (fds : List VfsFd) (v : Vfs) → table (with_table fds v) ≡ fds
table-with_table fds v = on v.kernel_boot fds v.kernel_fds v.proc_fds
  where
    on :
        (b : Bool) (fds ks ps : List VfsFd)
        → table (with_table fds (record { kernel_boot = b; kernel_fds = ks; proc_fds = ps })) ≡ fds
    on true fds ks ps = refl
    on false fds ks ps = refl

-- Both tables have `vfs_max_fds` entries.
unfoldable pub IsVfs : Vfs → Type 0
IsVfs v = (length v.kernel_fds ≡ vfs_max_fds) × (length v.proc_fds ≡ vfs_max_fds)

pub length-table : (v : Vfs) → IsVfs v → length (table v) ≡ vfs_max_fds
unfolding IsVfs
length-table v (hk, hp) = on v.kernel_boot v.kernel_fds v.proc_fds hk hp
  where
    on :
        (b : Bool) (ks ps : List VfsFd)
        → length ks ≡ vfs_max_fds
        → length ps ≡ vfs_max_fds
        → length (if b then ks else ps) ≡ vfs_max_fds
    on true ks ps hk hp = hk
    on false ks ps hk hp = hp

module _ {ℓ} {A : Type ℓ} where
  get_elem?-drop : (n k : ℕ) (xs : List A) → get_elem? (drop n xs) k ≡ get_elem? xs (n + k)
  get_elem?-drop zero k xs = let e : k ≡ 0 + k = omega arith in ap (get_elem? xs) e
  get_elem?-drop (suc n) k [] = refl
  get_elem?-drop (suc n) k (x ∷ xs) =
      let e : suc n + k ≡ suc (n + k) = omega arith in
      get_elem?-drop n k xs ∙ ap (get_elem? (x ∷ xs)) (sym e)

  get_elem?-take-append :
      (n k : ℕ) (xs ys : List A)
      → n ≤ length xs
      → get_elem? (take n xs ++ ys) (n + k) ≡ get_elem? ys k
  get_elem?-take-append zero k xs ys h = let e : 0 + k ≡ k = omega arith in ap (get_elem? ys) e
  get_elem?-take-append (suc n) k [] ys h = absurd (omega arith)
  get_elem?-take-append (suc n) k (x ∷ xs) ys h =
      let e : suc n + k ≡ suc (n + k) = omega arith in
      ap (get_elem? (x ∷ take n xs ++ ys)) e ∙ get_elem?-take-append n k xs ys (omega arith)

  get_elem?-take-append_lt :
      (n j : ℕ) (xs ys : List A)
      → n ≤ length xs
      → j < n
      → get_elem? (take n xs ++ ys) j ≡ get_elem? xs j
  get_elem?-take-append_lt zero j xs ys h hj = absurd (omega arith)
  get_elem?-take-append_lt (suc n) j [] ys h hj = absurd (omega arith)
  get_elem?-take-append_lt (suc n) zero (x ∷ xs) ys h hj = refl
  get_elem?-take-append_lt (suc n) (suc j) (x ∷ xs) ys h hj =
      get_elem?-take-append_lt n j xs ys (omega arith) (omega arith)

  get_elem?-take-append_ne :
      (n k j : ℕ) (xs ys : List A)
      → n ≤ length xs
      → j ≢ n + k
      → ((i : ℕ) → i ≢ k → get_elem? ys i ≡ get_elem? (drop n xs) i)
      → get_elem? (take n xs ++ ys) j ≡ get_elem? xs j
  get_elem?-take-append_ne n k j xs ys h ne same = elim (Bool-cases (ltb j n)) [
    | inl before ↦ get_elem?-take-append_lt n j xs ys h (ground arith)
    | inr after ↦
        let at : j ≡ n + (j - n) = ground arith in
        ap (get_elem? (take n xs ++ ys)) at
        ∙ get_elem?-take-append n (j - n) xs ys h
        ∙ same (j - n) (λ e. ne (omega arith))
        ∙ get_elem?-drop n (j - n) xs
        ∙ ap (get_elem? xs) (sym at)
  ]

-- What `alloc_fd` may give: the first free entry from `first_fd` on is claimed and no other one
-- changes; or none is free from there on and nothing changes.
unfoldable pub AllocFdOutcome : ℕ → Vfs → KResult ℕ × Vfs → Type 0
AllocFdOutcome perms v (ok idx, v') =
    (fd : VfsFd) × (first_fd v ≤ idx)
    × (get_elem? (table v) idx ≡ some fd)
    × (fd.used ≡ false)
    × (get_elem? (table v') idx ≡ some (claim perms fd))
    × ((j : ℕ) → j ≢ idx → get_elem? (table v') j ≡ get_elem? (table v) j)
    × ((j : ℕ) (f : VfsFd)
        → first_fd v ≤ j
        → j < idx
        → get_elem? (table v) j ≡ some f
        → f.used ≡ true)
AllocFdOutcome perms v (err e, v') =
    (e ≡ no_mem)
    × (table v' ≡ table v)
    × ((j : ℕ) (fd : VfsFd) → first_fd v ≤ j → get_elem? (table v) j ≡ some fd → fd.used ≡ true)

first_fd_le : (v : Vfs) → first_fd v ≤ 3
first_fd_le v = on v.kernel_boot
  where
    on : (b : Bool) → (if b then 0 else 3) ≤ 3
    on true = omega arith
    on false = omega arith

whole_table :
    (perms : ℕ) (v : Vfs) (out : KResult ℕ × List VfsFd)
    → IsVfs v
    → ClaimOutcome perms (first_fd v) (drop (first_fd v) (table v)) out
    → AllocFdOutcome perms v (out.0, with_table (take (first_fd v) (table v) ++ out.1) v)
unfolding ClaimOutcome AllocFdOutcome
whole_table perms v (err e, fds') h (code, same, all) = (
  code,
  table-with_table (take (first_fd v) (table v) ++ fds') v
      ∙ ap (λ (t : List VfsFd). take (first_fd v) (table v) ++ t) same
      ∙ take-append-drop (first_fd v) (table v),
  (λ j fd low here.
      let at : j ≡ first_fd v + (j - first_fd v) = omega arith in
      all (j - first_fd v) fd (
        get_elem?-drop (first_fd v) (j - first_fd v) (table v)
        ∙ ap (get_elem? (table v)) (sym at)
        ∙ here)),
)
whole_table perms v (ok idx, fds') h (k, fd, at, was, clear, now, others, before) =
    let first = first_fd v in
    let size = length-table v h in
    let small = first_fd_le v in
    let fits : first ≤ length (table v) = omega (arith, size, small) in
    let back = table-with_table (take first (table v) ++ fds') v in
    (
      fd,
      omega arith,
      ap (get_elem? (table v)) at ∙ sym (get_elem?-drop first k (table v)) ∙ was,
      clear,
      ap (λ (t : List VfsFd). get_elem? t idx) back
          ∙ ap (get_elem? (take first (table v) ++ fds')) at
          ∙ get_elem?-take-append first k (table v) fds' fits
          ∙ now,
      (λ j ne.
          ap (λ (t : List VfsFd). get_elem? t j) back
          ∙ get_elem?-take-append_ne first k j (table v) fds' fits (λ e. ne (e ∙ sym at)) others),
      (λ j f low below here.
          let behind : j ≡ first + (j - first) = omega arith in
          before (j - first) f (omega arith) (
            get_elem?-drop first (j - first) (table v)
            ∙ ap (get_elem? (table v)) (sym behind)
            ∙ here)),
    )

pub alloc_fd-AllocFdOutcome :
    (perms : ℕ) (v : Vfs) → IsVfs v → AllocFdOutcome perms v (alloc_fd perms v)
unfolding alloc_fd
alloc_fd-AllocFdOutcome perms v h =
    whole_table perms v (claim_from perms (drop (first_fd v) (table v)) (first_fd v)) h
      (claim_from_lem perms (first_fd v) (drop (first_fd v) (table v)))

pub get_elem?-some :
    (xs : List VfsFd) (i : ℕ) → i < length xs → (fd : VfsFd) × (get_elem? xs i ≡ some fd)
get_elem?-some [] i h = absurd (omega arith)
get_elem?-some (x ∷ xs) zero h = (x, refl)
get_elem?-some (x ∷ xs) (suc i) h = get_elem?-some xs i (omega arith)

pub get_elem?-update_fd :
    (fds : List VfsFd) (i : ℕ) (f : VfsFd → VfsFd) (fd : VfsFd)
    → get_elem? fds i ≡ some fd
    → get_elem? (update_fd i f fds) i ≡ some (f fd)
unfolding update_fd
get_elem?-update_fd [] i f fd h = absurd cc
get_elem?-update_fd (x ∷ xs) zero f fd h = cc
get_elem?-update_fd (x ∷ xs) (suc i) f fd h = get_elem?-update_fd xs i f fd h

pub length-update_fd :
    (fds : List VfsFd) (i : ℕ) (f : VfsFd → VfsFd) → length (update_fd i f fds) ≡ length fds
unfolding update_fd
length-update_fd [] i f = refl
length-update_fd (x ∷ xs) zero f = refl
length-update_fd (x ∷ xs) (suc i) f = ap suc (length-update_fd xs i f)
