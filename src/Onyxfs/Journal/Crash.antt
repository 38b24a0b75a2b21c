-- ===== src/Onyxfs/Journal/Crash.antt =====
-- kernel/src/fs/onyxfs/journal.rs: what recovery makes of the transactions that were logged before
-- a crash, on a disk whose transfers all succeed.
use slipper_kernel.Prelude.{
  ℕ, ◌+◌, ◌≤◌, ◌<◌, List, [], ◌∷◌, ◌++◌, length, length-append, drop, length-drop, ◌≡◌, refl, sym,
  subst, ap, ap₂, arith, ◌∙◌, ◌⊎◌, inl, inr, All, append-nil, Bool-cases, ◌==◌, ltb, true,
}
use slipper_kernel.Onyxfs.Journal.{
  Journal, IoResult, ok, and_then, same, write_at, write_entry, commit_entry, entry_type,
  journal_commit, journal_recover,
}
use slipper_kernel.Onyxfs.Journal.Log.{
  journal, IsArea, log_all, put, log_all_lem, journal_commit_lem, journal_commit-full,
}
use slipper_kernel.Onyxfs.Journal.Recover.{
  Slots, IsTarget, apply_all, cleared, write_at-ne, Slots-agree, Slots-entry_type,
  journal_recover-no_commit, journal_recover-commit,
}

-- a transaction: journal_log of each block, then journal_commit
unfoldable pub transaction : List (ℕ × List ℕ) → Journal → IoResult Journal
unfolding log_all journal_commit and_then same
transaction ws j = and_then same journal_commit (log_all ws j)

-- The blocks of the journal are as in `f`; the others are whatever the crash left.
unfoldable pub AgreeOn : ℕ → ℕ → (ℕ → List ℕ) → (ℕ → List ℕ) → Type 0
AgreeOn start size f g = (x : ℕ) → start ≤ x → x < start + size → g x ≡ f x

put-ne :
    (at : ℕ) (ws : List (ℕ × List ℕ)) (f : ℕ → List ℕ) (x : ℕ)
    → (x < at) ⊎ (at + length ws ≤ x)
    → put at ws f x ≡ f x
unfolding put
put-ne at [] f x h = refl
put-ne at ((b, bytes) ∷ ws) f x (inl h) =
    put-ne (at + 1) ws (write_at at (write_entry b bytes) f) x (inl (omega arith))
    ∙ write_at-ne at (write_entry b bytes) f x (inl h)
put-ne at ((b, bytes) ∷ ws) f x (inr h) =
    put-ne (at + 1) ws (write_at at (write_entry b bytes) f) x (inr (omega arith))
    ∙ write_at-ne at (write_entry b bytes) f x (inr (omega arith))

write_at_self : (b : ℕ) (bytes : List ℕ) (f : ℕ → List ℕ) → write_at b bytes f b ≡ bytes
unfolding write_at
write_at_self b bytes f = let e : (b == b) ≡ true = ground arith in rw e refl

pub put-Slots_self : (at : ℕ) (ws : List (ℕ × List ℕ)) (f : ℕ → List ℕ) → Slots (put at ws f) at ws
unfolding put Slots
put-Slots_self at [] f = tt
put-Slots_self at ((b, bytes) ∷ ws) f = (
  put-ne (at + 1) ws (write_at at (write_entry b bytes) f) at (inl (omega arith))
      ∙ write_at_self at (write_entry b bytes) f,
  put-Slots_self (at + 1) ws (write_at at (write_entry b bytes) f),
)

-- Entries written over the first ones of a longer list.
put-Slots :
    (news olds : List (ℕ × List ℕ)) (at : ℕ) (f : ℕ → List ℕ)
    → Slots f at olds
    → Slots (put at news f) at (news ++ drop (length news) olds)
unfolding put Slots
put-Slots [] olds at f h = h
put-Slots ((b, bytes) ∷ news) [] at f h =
    subst (Slots (put (at + 1) news (write_at at (write_entry b bytes) f)) at)
      (sym (append-nil ((b, bytes) ∷ news))) (put-Slots_self at ((b, bytes) ∷ news) f)
put-Slots ((b, bytes) ∷ news) (old ∷ olds) at f (here, rest) = (
  put-ne (at + 1) news (write_at at (write_entry b bytes) f) at (inl (omega arith))
      ∙ write_at_self at (write_entry b bytes) f,
  put-Slots news olds (at + 1) (write_at at (write_entry b bytes) f) (
      Slots-agree f (write_at at (write_entry b bytes) f) (at + 1) olds
        (λ x low high. write_at-ne at (write_entry b bytes) f x (inr (omega arith))) rest),
)

pub log_all_from_0 :
    (ws : List (ℕ × List ℕ)) (start size : ℕ) (f : ℕ → List ℕ)
    → IsArea start size
    → length ws ≤ size
    → log_all ws (journal start size 0 f) ≡ ok (journal start size (length ws) (put start ws f))
log_all_from_0 ws start size f area fits =
    let at : start + 0 ≡ start = omega arith in
    log_all_lem ws start size 0 f area (omega arith)
    ∙ ap₂ (λ (k from : ℕ). ok (journal start size k (put from ws f))) (omega arith) at

pub transaction_lem :
    (ws : List (ℕ × List ℕ)) (start size : ℕ) (f : ℕ → List ℕ)
    → IsArea start size
    → 0 < length ws
    → length ws < size
    → transaction ws (journal start size 0 f)
      ≡ ok (journal start size 0 (write_at (start + length ws) commit_entry (put start ws f)))
unfolding transaction and_then same
transaction_lem ws start size f area some_logged fits =
    rw (log_all_from_0 ws start size f area (omega arith))
      (journal_commit_lem start size (length ws) (put start ws f) area some_logged fits)

-- No block of the journal reads as a commit_end or as an unknown type.
unfoldable pub IsClean : ℕ → ℕ → (ℕ → List ℕ) → Type 0
IsClean start size f = (k : ℕ) → k < size → entry_type (f (start + k)) < 2

ok_injective : (a b : Journal) → ok a ≡ ok b → a ≡ b
ok_injective a b e = cc

logged :
    (ws : List (ℕ × List ℕ)) (start size : ℕ) (f : ℕ → List ℕ) (j : Journal)
    → IsArea start size
    → length ws ≤ size
    → log_all ws (journal start size 0 f) ≡ ok j
    → j ≡ journal start size (length ws) (put start ws f)
logged ws start size f j area fits run =
    ok_injective j (journal start size (length ws) (put start ws f))
      (sym run ∙ log_all_from_0 ws start size f area fits)

committed :
    (ws : List (ℕ × List ℕ)) (start size : ℕ) (f : ℕ → List ℕ) (j : Journal)
    → IsArea start size
    → 0 < length ws
    → length ws < size
    → transaction ws (journal start size 0 f) ≡ ok j
    → j ≡ journal start size 0 (write_at (start + length ws) commit_entry (put start ws f))
committed ws start size f j area some_logged fits run =
    ok_injective j
      (journal start size 0 (write_at (start + length ws) commit_entry (put start ws f)))
      (sym run ∙ transaction_lem ws start size f area some_logged fits)

-- A transaction, and then the entries of another that is not longer and was not committed.
stale-Slots :
    (olds news : List (ℕ × List ℕ)) (start : ℕ) (f : ℕ → List ℕ)
    → length news ≤ length olds
    → Slots
        (put start news (write_at (start + length olds) commit_entry (put start olds f)))
        start
        (news ++ drop (length news) olds)
stale-Slots olds news start f shorter =
    put-Slots news olds start (write_at (start + length olds) commit_entry (put start olds f)) (
      Slots-agree (put start olds f)
        (write_at (start + length olds) commit_entry (put start olds f)) start olds
        (λ x low high.
          write_at-ne (start + length olds) commit_entry (put start olds f) x (inl high))
        (put-Slots_self start olds f))

stale-marker :
    (olds news : List (ℕ × List ℕ)) (start : ℕ) (f : ℕ → List ℕ)
    → length news ≤ length olds
    → put start news
        (write_at (start + length olds) commit_entry (put start olds f))
        (start + length olds)
      ≡ commit_entry
stale-marker olds news start f shorter =
    put-ne start news (write_at (start + length olds) commit_entry (put start olds f))
      (start + length olds) (inr (omega arith))
    ∙ write_at_self (start + length olds) commit_entry (put start olds f)

length-overwritten :
    (olds news : List (ℕ × List ℕ))
    → length news ≤ length olds
    → length (news ++ drop (length news) olds) ≡ length olds
length-overwritten olds news shorter =
    omega (arith, length-append news (drop (length news) olds), length-drop (length news) olds)

stale_lem :
    (olds news : List (ℕ × List ℕ)) (start size : ℕ) (f : ℕ → List ℕ) (j j' : Journal)
    → IsArea start size
    → 0 < length olds
    → length olds < size
    → length news ≤ length olds
    → transaction olds (journal start size 0 f) ≡ ok j
    → log_all news j ≡ ok j'
    → j'
      ≡ journal start size
          (length news)
          (put start news (write_at (start + length olds) commit_entry (put start olds f)))
stale_lem olds news start size f j j' area some_logged fits shorter run run' =
    logged news start size (write_at (start + length olds) commit_entry (put start olds f)) j' area
      (omega arith)
      (subst (λ (k : Journal). log_all news k ≡ ok j')
        (committed olds start size f j area some_logged fits run) run')

-- Entries of writes leave a clean journal clean.
put-IsClean :
    (ws : List (ℕ × List ℕ)) (start size : ℕ) (f : ℕ → List ℕ)
    → IsClean start size f
    → IsClean start size (put start ws f)
unfolding IsClean
put-IsClean ws start size f clean k h = elim (Bool-cases (ltb k (length ws))) [
  | inl within ↦
      Slots-entry_type (put start ws f) start ws (start + k) (put-Slots_self start ws f)
        (omega arith) (ground arith)
  | inr behind ↦
      subst (λ (bytes : List ℕ). entry_type bytes < 2)
        (sym (put-ne start ws f (start + k) (inr (ground arith)))) (clean k h)
]

-- A transaction of fewer writes than the journal has blocks, once journal_commit has returned Ok,
-- survives a crash: whatever state the crash leaves the blocks outside the journal in, recovery
-- succeeds, applies every write of the transaction in its order (the first 4088 bytes of each
-- block) to them, and zeroes the blocks of the journal that the transaction used.
pub journal_recover-transaction :
    (ws : List (ℕ × List ℕ)) (start size head : ℕ) (f crashed : ℕ → List ℕ) (j : Journal)
    → IsArea start size
    → 0 < length ws
    → length ws < size
    → All (IsTarget start size) ws
    → transaction ws (journal start size 0 f) ≡ ok j
    → AgreeOn start size j.disk.blocks crashed
    → journal_recover (journal start size head crashed)
      ≡ ok (journal start size 0 (cleared start (length ws + 1) (apply_all ws crashed)))
unfolding AgreeOn
journal_recover-transaction ws start size head f crashed j area some_logged fits targets run agree =
    journal_recover-commit ws start size head crashed area fits targets
      (Slots-agree (put start ws f) crashed start ws
        (λ x low high.
          as_left x low (omega arith)
          ∙ write_at-ne (start + length ws) commit_entry (put start ws f) x (inl high))
        (put-Slots_self start ws f))
      (as_left (start + length ws) (omega arith) (omega arith)
        ∙ write_at_self (start + length ws) commit_entry (put start ws f))
  where
    as_left :
        (x : ℕ)
        → start ≤ x
        → x < start + size
        → crashed x ≡ write_at (start + length ws) commit_entry (put start ws f) x
    as_left x low high =
        agree x low high
        ∙ ap (λ (left : Journal). left.disk.blocks x)
            (committed ws start size f j area some_logged fits run)

-- After a transaction that committed, the entries of a second one that is not longer and has not
-- committed are replayed all the same when the machine crashes: journal_commit leaves the first
-- one's marker in place, so recovery applies the second one's writes, and after them those of the
-- first that no new entry has overwritten.
pub journal_recover-stale :
    (olds news : List (ℕ × List ℕ)) (start size head : ℕ) (f crashed : ℕ → List ℕ) (j j' : Journal)
    → IsArea start size
    → 0 < length olds
    → length olds < size
    → length news ≤ length olds
    → All (IsTarget start size) (news ++ drop (length news) olds)
    → transaction olds (journal start size 0 f) ≡ ok j
    → log_all news j ≡ ok j'
    → AgreeOn start size j'.disk.blocks crashed
    → journal_recover (journal start size head crashed)
      ≡ ok (
          journal start size 0
            (cleared start (length olds + 1) (apply_all (news ++ drop (length news) olds) crashed)))
unfolding AgreeOn
journal_recover-stale olds news start size head f crashed j j' area some_logged fits shorter targets
      run run' agree =
    subst
      (λ (n : ℕ).
        journal_recover (journal start size head crashed)
        ≡ ok (
            journal start size 0
              (cleared start (n + 1) (apply_all (news ++ drop (length news) olds) crashed))))
      (length-overwritten olds news shorter)
      (journal_recover-commit (news ++ drop (length news) olds) start size head crashed area
        (omega (arith, length-overwritten olds news shorter)) targets
        (Slots-agree left crashed start (news ++ drop (length news) olds)
          (λ x low high. as_left x low (omega (arith, length-overwritten olds news shorter)))
          (stale-Slots olds news start f shorter))
        (ap (λ (n : ℕ). crashed (start + n)) (length-overwritten olds news shorter)
          ∙ as_left (start + length olds) (omega arith) (omega arith)
          ∙ stale-marker olds news start f shorter))
  where
    left : ℕ → List ℕ
    left = put start news (write_at (start + length olds) commit_entry (put start olds f))

    as_left : (x : ℕ) → start ≤ x → x < start + size → crashed x ≡ left x
    as_left x low high =
        agree x low high
        ∙ ap (λ (k : Journal). k.disk.blocks x)
            (stale_lem olds news start size f j j' area some_logged fits shorter run run')

-- On a clean journal, the entries of a transaction that was not committed are not replayed: after a
-- crash recovery succeeds and changes no block at all.
pub journal_recover-log_all :
    (ws : List (ℕ × List ℕ)) (start size head : ℕ) (f crashed : ℕ → List ℕ) (j : Journal)
    → IsArea start size
    → length ws ≤ size
    → IsClean start size f
    → log_all ws (journal start size 0 f) ≡ ok j
    → AgreeOn start size j.disk.blocks crashed
    → journal_recover (journal start size head crashed) ≡ ok (journal start size 0 crashed)
unfolding AgreeOn IsClean
journal_recover-log_all ws start size head f crashed j area fits clean run agree =
    journal_recover-no_commit start size head crashed area (λ k high.
      subst (λ (bytes : List ℕ). entry_type bytes < 2)
        (sym (
          agree (start + k) (omega arith) (omega arith)
          ∙ ap (λ (left : Journal). left.disk.blocks (start + k))
              (logged ws start size f j area fits run)))
        (put-IsClean ws start size f clean k high))

-- A transaction of exactly as many writes as the journal has blocks is lost: on a clean journal it
-- is logged and committed with Ok, and recovery after a crash replays none of it.
pub transaction-full :
    (ws : List (ℕ × List ℕ)) (start head : ℕ) (f : ℕ → List ℕ)
    → IsArea start (length ws)
    → IsClean start (length ws) f
    → (transaction ws (journal start (length ws) 0 f)
        ≡ ok (journal start (length ws) 0 (put start ws f)))
      × (journal_recover (journal start (length ws) head (put start ws f))
          ≡ ok (journal start (length ws) 0 (put start ws f)))
unfolding transaction and_then same IsArea IsClean
transaction-full ws start head f area clean = (
  rw (log_all_from_0 ws start (length ws) f area (omega arith)) (
      journal_commit-full start (length ws) (length ws) (put start ws f) area area.1 (omega arith)),
  journal_recover-no_commit start (length ws) head (put start ws f) area
      (put-IsClean ws start (length ws) f clean),
)
