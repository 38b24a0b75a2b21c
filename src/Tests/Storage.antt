-- ===== src/Tests/Storage.antt =====
-- Concrete journals: kernel/src/fs/onyxfs/journal.rs.
use slipper_kernel.Prelude.{ℕ, List, [], ◌∷◌, ◌++◌, drop, ◌≡◌, refl, arith, inr, All}
use slipper_kernel.Onyxfs.Journal.{ok, write_at, zeros, commit_entry, journal_recover}
use slipper_kernel.Onyxfs.Journal.Log.{journal, IsArea, put}
use slipper_kernel.Onyxfs.Journal.Recover.{IsTarget, apply_all, cleared, entry_type-zeros}
use slipper_kernel.Onyxfs.Journal.Crash.{
  AgreeOn, transaction, IsClean, transaction_lem, log_all_from_0, journal_recover-transaction,
  journal_recover-stale, journal_recover-log_all, transaction-full,
}

abbrev old_writes : List (ℕ × List ℕ)
old_writes = (9, 1 ∷ 2 ∷ []) ∷ (11, 3 ∷ []) ∷ []

abbrev new_writes : List (ℕ × List ℕ)
new_writes = (9, 7 ∷ []) ∷ []

abbrev blank : ℕ → List ℕ
blank b = zeros 4096

wide-IsArea : IsArea 2 4
unfolding IsArea
wide-IsArea = (omega arith, omega arith, omega arith)

small-IsArea : IsArea 2 2
unfolding IsArea
small-IsArea = (omega arith, omega arith, omega arith)

old_targets : All (IsTarget 2 4) old_writes
unfolding IsTarget
old_targets = ((omega arith, inr (omega arith)), ((omega arith, inr (omega arith)), tt))

mixed_targets : All (IsTarget 2 4) (new_writes ++ drop 1 old_writes)
unfolding IsTarget
mixed_targets = ((omega arith, inr (omega arith)), ((omega arith, inr (omega arith)), tt))

blank-IsClean : (size : ℕ) → IsClean 2 size blank
unfolding IsClean
blank-IsClean size k h = rw entry_type-zeros (omega arith)

abbrev committed : ℕ → List ℕ
committed = write_at 4 commit_entry (put 2 old_writes blank)

journal_recover-transaction_example :
    journal_recover (journal 2 4 0 committed)
    ≡ ok (journal 2 4 0 (cleared 2 3 (apply_all old_writes committed)))
unfolding AgreeOn
journal_recover-transaction_example =
    journal_recover-transaction old_writes 2 4 0 blank committed (journal 2 4 0 committed)
      wide-IsArea (omega arith) (omega arith) old_targets
      (transaction_lem old_writes 2 4 blank wide-IsArea (omega arith) (omega arith))
      (λ x low high. refl)

journal_recover-stale_example :
    journal_recover (journal 2 4 1 (put 2 new_writes committed))
    ≡ ok (
        journal 2 4 0
          (cleared 2 3 (apply_all (new_writes ++ drop 1 old_writes) (put 2 new_writes committed))))
unfolding AgreeOn
journal_recover-stale_example =
    journal_recover-stale old_writes new_writes 2 4 1 blank (put 2 new_writes committed)
      (journal 2 4 0 committed) (journal 2 4 1 (put 2 new_writes committed)) wide-IsArea
      (omega arith) (omega arith) (omega arith) mixed_targets
      (transaction_lem old_writes 2 4 blank wide-IsArea (omega arith) (omega arith))
      (log_all_from_0 new_writes 2 4 committed wide-IsArea (omega arith)) (λ x low high. refl)

journal_recover-log_all_example :
    journal_recover (journal 2 4 2 (put 2 old_writes blank))
    ≡ ok (journal 2 4 0 (put 2 old_writes blank))
unfolding AgreeOn
journal_recover-log_all_example =
    journal_recover-log_all old_writes 2 4 2 blank (put 2 old_writes blank)
      (journal 2 4 2 (put 2 old_writes blank)) wide-IsArea (omega arith) (blank-IsClean 4)
      (log_all_from_0 old_writes 2 4 blank wide-IsArea (omega arith)) (λ x low high. refl)

transaction-full_example :
    (transaction old_writes (journal 2 2 0 blank) ≡ ok (journal 2 2 0 (put 2 old_writes blank)))
    × (journal_recover (journal 2 2 0 (put 2 old_writes blank))
        ≡ ok (journal 2 2 0 (put 2 old_writes blank)))
transaction-full_example = transaction-full old_writes 2 0 blank small-IsArea (blank-IsClean 2)
