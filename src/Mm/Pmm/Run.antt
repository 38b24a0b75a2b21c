-- ===== src/Mm/Pmm/Run.antt =====
-- kernel/src/mm/pmm/bitmap.rs: `alloc_n`.
use slipper_kernel.Prelude.{
  ℕ, zero, suc, ◌+◌, ◌-◌, ◌*◌, ◌/◌, ◌%◌, ◌^◌, ◌≤◌, ◌<◌, ◌≡◌, refl, ap, subst, sym, ◌∙◌, arith,
  length, Bool, true, false, ◌&&◌, ltb, leb, ◌==◌, if◌then◌else◌, Bool-cases, ◌⊎◌, inl, inr,
}
use slipper_kernel.Core.Errno.{KResult, ok, err, no_mem}
use slipper_kernel.Mm.Pmm.{
  Pmm, page_used, page_size, bm_get, bm_set, idx_to_pa, set_run, run_after, alloc_n, alloc_n_from,
}
use slipper_kernel.Mm.Pmm.Bitmap.{IsPmm, page_used-bm_set, bm_set-IsPmm}

-- page `j` is one of the `n` pages from `start` on
abbrev pub in_run : ℕ → ℕ → ℕ → Bool
in_run start n j = leb start j && ltb j (start + n)

-- pages `start` to `start + n - 1` are free
unfoldable pub IsFreeRun : ℕ → ℕ → Pmm → Type 0
IsFreeRun start n p = (j : ℕ) → start ≤ j → j < start + n → page_used p.bitmap j ≡ false

-- `p'` is `p` with these `n` pages taken
unfoldable pub IsRunTaken : ℕ → ℕ → Pmm → Pmm → Type 0
IsRunTaken start n p p' =
    ((j : ℕ) → page_used p'.bitmap j ≡ (if in_run start n j then true else page_used p.bitmap j))
    × (p.free_pages ≡ n + p'.free_pages)
    × IsPmm p'

join :
    (start n j : ℕ) (a b : Bool)
    → a ≡ (if start == j then true else b)
    → (if in_run (start + 1) n j then true else a) ≡ (if in_run start (suc n) j then true else b)
join start n j a b e = ground arith

pub set_run_lem :
    (n start : ℕ) (p : Pmm)
    → IsPmm p
    → start + n ≤ p.total_pages
    → IsFreeRun start n p
    → IsRunTaken start n p (set_run n start p)
unfolding set_run IsFreeRun IsRunTaken IsPmm bm_set
set_run_lem zero start p h room clear = (
  (λ j. let outside : in_run start 0 j ≡ false = ground arith in rw outside refl),
  omega arith,
  h,
)
set_run_lem (suc n) start p h room clear =
    let (size, count, top) = h in
    let here : start / 8 < length p.bitmap = omega arith in
    let first : page_used p.bitmap start ≡ false = clear start (omega arith) (omega arith) in
    let (fine, fewer) = bm_set-IsPmm start p h (omega arith) first in
    let (others, counted, fine') =
      set_run_lem n (start + 1) (bm_set start p) fine (omega arith)
        (λ j low high. still j low high p here clear) in
    (
      (λ j.
          others j
          ∙ join start n j (page_used (bm_set start p).bitmap j) (page_used p.bitmap j)
              (page_used-bm_set start j p here)),
      omega arith,
      fine',
    )
  where
    still :
        (j : ℕ)
        → start + 1 ≤ j
        → j < start + 1 + n
        → (p : Pmm) → start / 8 < length p.bitmap
        → ((j : ℕ) → start ≤ j → j < start + suc n → page_used p.bitmap j ≡ false)
        → page_used (bm_set start p).bitmap j ≡ false
    still j low high p here clear =
        let other : (start == j) ≡ false = ground arith in
        page_used-bm_set start j p here ∙ rw other (clear j (omega arith) (omega arith))

-- What `alloc_n` may give for a request of `n` pages.
unfoldable pub RunOutcome : ℕ → Pmm → KResult ℕ × Pmm → Type 0
RunOutcome n p (ok pa, p') =
    (start : ℕ) × (start + n ≤ p.total_pages)
    × (pa ≡ p.base + start * page_size)
    × IsFreeRun start n p
    × IsRunTaken start n p p'
RunOutcome n p (err e, p') =
    (e ≡ no_mem) × (p' ≡ p) × ((s : ℕ) → s + n ≤ p.total_pages → IsFreeRun s n p → ⊥)

-- The state of the search before page `i`: the last `run` pages are free, the page before them is
-- not, and no `n` free pages in a row have been passed.
unfoldable IsSearch : ℕ → ℕ → ℕ → ℕ → Pmm → Type 0
IsSearch n i run start p =
    (run < n)
    × (run ≤ i)
    × (0 < run → start + run ≡ i)
    × IsFreeRun (i - run) run p
    × ((run ≡ i) ⊎ (page_used p.bitmap (i - run - 1) ≡ true))
    × ((s : ℕ) → s + n ≤ i → IsFreeRun s n p → ⊥)

used-not-free :
    (s n j : ℕ) (p : Pmm) → IsFreeRun s n p → s ≤ j → j < s + n → page_used p.bitmap j ≡ true → ⊥
unfolding IsFreeRun
used-not-free s n j p clear low high taken =
    let e : true ≡ false = sym taken ∙ clear j low high in absurd cc

IsSearch-used :
    (n i run start : ℕ) (p : Pmm)
    → IsSearch n i run start p
    → page_used p.bitmap i ≡ true
    → IsSearch n (i + 1) 0 start p
unfolding IsSearch IsFreeRun
IsSearch-used n i run start p (short, few, begins, clear, edge, nothing) taken = (
  omega arith,
  omega arith,
  (λ h. absurd (omega arith)),
  (λ j low high. absurd (omega arith)),
  inr (let e : i + 1 - 0 - 1 ≡ i = omega arith in ap (page_used p.bitmap) e ∙ taken),
  (λ s h run_s. elim (Bool-cases (leb (s + n) i)) [
    | inl before ↦ nothing s (ground arith) run_s
    | inr now ↦ used-not-free s n i p run_s (ground arith) (ground arith) taken
  ]),
)

run_grows :
    (n i run start : ℕ) (p : Pmm)
    → IsSearch n i run start p
    → page_used p.bitmap i ≡ false
    → IsFreeRun (i - run) (run + 1) p
unfolding IsSearch IsFreeRun
run_grows n i run start p (short, few, begins, clear, edge, nothing) free_now j low high =
    elim (Bool-cases (i == j)) [
      | inl e ↦
          let same : i ≡ j = ground arith in subst (λ m. page_used p.bitmap m ≡ false) same free_now
      | inr e ↦ clear j low (ground arith)
    ]

-- the `start` that the loop keeps for a run which page `i` belongs to
abbrev next_start : ℕ → ℕ → ℕ → ℕ
next_start i run start = if run == 0 then i else start

next_start_lem :
    (n i run start : ℕ) (p : Pmm) → IsSearch n i run start p → next_start i run start ≡ i - run
unfolding IsSearch
next_start_lem n i run start p (short, few, begins, clear, edge, nothing) =
    elim (Bool-cases (run == 0)) [
      | inl e ↦ rw e (ground arith)
      | inr e ↦ let more : 0 < run = ground arith in let at = begins more in rw e (omega arith)
    ]

IsSearch-free :
    (n i run start : ℕ) (p : Pmm)
    → IsSearch n i run start p
    → page_used p.bitmap i ≡ false
    → (run + 1 == n) ≡ false
    → IsSearch n (i + 1) (run + 1) (next_start i run start) p
unfolding IsSearch
IsSearch-free n i run start p h free_now unfinished =
    let first = next_start_lem n i run start p h in
    let grown = run_grows n i run start p h free_now in
    extend n i run start (next_start i run start) p h first grown unfinished
  where
    extend :
        (n i run start start' : ℕ) (p : Pmm)
        → IsSearch n i run start p
        → start' ≡ i - run
        → IsFreeRun (i - run) (run + 1) p
        → (run + 1 == n) ≡ false
        → IsSearch n (i + 1) (run + 1) start' p
    extend n i run start start' p (short, few, begins, clear, edge, nothing) first grown
          unfinished =
        let less : run + 1 < n = ground arith in
        let same : i + 1 - (run + 1) ≡ i - run = omega arith in
        (
          less,
          omega arith,
          (λ more. omega arith),
          subst (λ m. IsFreeRun m (run + 1) p) (sym same) grown,
          elim edge [
            | inl all ↦ inl (omega arith)
            | inr taken ↦ inr (ap (λ m. page_used p.bitmap (m - 1)) same ∙ taken)
          ],
          (λ s h run_s. elim (Bool-cases (leb (s + n) i)) [
            | inl before ↦ nothing s (ground arith) run_s
            | inr now ↦ elim edge [
              | inl all ↦ absurd (ground arith)
              | inr taken ↦
                  used-not-free s n (i - run - 1) p run_s (ground arith) (ground arith) taken
            ]
          ]),
        )

found_none :
    (n i run start : ℕ) (p : Pmm)
    → 0 + i ≡ p.total_pages
    → IsSearch n i run start p
    → RunOutcome n p (err no_mem, p)
unfolding RunOutcome IsSearch
found_none n i run start p e (short, few, begins, clear, edge, nothing) =
    (refl, refl, (λ s h run_s. nothing s (omega arith) run_s))

found_run :
    (n i run start : ℕ) (p : Pmm)
    → IsPmm p
    → i < p.total_pages
    → IsSearch n i run start p
    → page_used p.bitmap i ≡ false
    → (run + 1 == n) ≡ true
    → RunOutcome n p
        (ok (idx_to_pa (next_start i run start) p), set_run n (next_start i run start) p)
unfolding RunOutcome idx_to_pa IsSearch IsPmm
found_run n i run start p h inside search clear done =
    let (short, few, begins, held, edge, nothing) = search in
    let first = next_start_lem n i run start p search in
    let grown = run_grows n i run start p search clear in
    at n i run (next_start i run start) p h inside first few grown (ground arith)
  where
    at :
        (n i run start' : ℕ) (p : Pmm)
        → IsPmm p
        → i < p.total_pages
        → start' ≡ i - run
        → run ≤ i
        → IsFreeRun (i - run) (run + 1) p
        → run + 1 ≡ n
        → RunOutcome n p ((ok ((p.base + start' * page_size) % 2 ^ 64)), set_run n start' p)
    at n i run start' p h inside first few grown done =
        let (size, count, top) = h in
        let clear : IsFreeRun start' n p =
          subst (λ m. IsFreeRun start' m p) done
            (subst (λ m. IsFreeRun m (run + 1) p) (sym first) grown) in
        (start', omega arith, omega arith, clear, set_run_lem n start' p h (omega arith) clear)

alloc_n_from_lem :
    (n left i run start : ℕ) (p : Pmm)
    → IsPmm p
    → left + i ≡ p.total_pages
    → IsSearch n i run start p
    → RunOutcome n p (alloc_n_from n left i (run, start) p)
unfolding alloc_n_from RunOutcome bm_get run_after
alloc_n_from_lem n zero i run start p h e search = found_none n i run start p e search
alloc_n_from_lem n (suc left) i run start p h e search = elim (Bool-cases (page_used p.bitmap i)) [
  | inl taken ↦ rw taken (
      alloc_n_from_lem n left (i + 1) 0 start p h (omega arith)
        (IsSearch-used n i run start p search taken))
  | inr clear ↦ elim (Bool-cases (run + 1 == n)) [
    | inl done ↦ rw (clear, done) (found_run n i run start p h (omega arith) search clear done)
    | inr more ↦
        rw (clear, more)
          (alloc_n_from_lem n left (i + 1) (run + 1) (next_start i run start) p h (omega arith)
            (IsSearch-free n i run start p search clear more))
  ]
]

-- In a well-formed allocator, a request for `n > 0` pages gives the address of `n` free pages in a
-- row, takes these and no other, counts them off and keeps the allocator well formed; it fails, with
-- `NoMem` and no change, only when there are no `n` free pages in a row.
pub alloc_n_lem : (n : ℕ) (p : Pmm) → IsPmm p → 0 < n → RunOutcome n p (alloc_n n p)
unfolding alloc_n IsSearch IsFreeRun
alloc_n_lem n p h more =
    let some_pages : (n == 0) ≡ false = ground arith in
    rw some_pages (
      alloc_n_from_lem n p.total_pages 0 0 0 p h (omega arith) (
        more,
        omega arith,
        (λ none_yet. absurd (omega arith)),
        (λ j low high. absurd (omega arith)),
        inl refl,
        (λ s none_yet run_s. absurd (omega arith)),
      ))
