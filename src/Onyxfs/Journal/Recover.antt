-- ===== src/Onyxfs/Journal/Recover.antt =====
-- kernel/src/fs/onyxfs/journal.rs: the scan, the replay and the clearing of journal_recover, on a
-- disk whose transfers all succeed.
use slipper_kernel.Prelude.{
  ℕ, zero, suc, ◌+◌, ◌-◌, ◌≤◌, ◌<◌, ◌^◌, List, [], ◌∷◌, length, ◌==◌, ◌≡◌, refl, sym, take, drop,
  ap, ap₂, arith, ◌∙◌, ◌⊎◌, inl, inr, All, take_all, length-take, Bool-cases, false,
}
use slipper_kernel.Core.Parser.{le32, to_le32, le32-to_le32}
use slipper_kernel.Onyxfs.Journal.{
  ok, and_then, same, write_at, write_block, zeros, write_entry, commit_entry, entry_type,
  entry_block, overlay, scan_entry, scan, found_commit, no_commit, read_or_zeros, replay_entry,
  replay, clear, recover_from, journal_recover,
}
use slipper_kernel.Onyxfs.Journal.Log.{sound, journal, IsArea, slot_lem, no_journal_lem}

-- The blocks from `at` on hold the entries of `ws`.
unfoldable pub Slots : (ℕ → List ℕ) → ℕ → List (ℕ × List ℕ) → Type 0
Slots f at [] = Unit {0}
Slots f at ((b, bytes) ∷ ws) = (f at ≡ write_entry b bytes) × Slots f (at + 1) ws

-- a block number of a u32, outside the journal
unfoldable pub IsTarget : ℕ → ℕ → ℕ × List ℕ → Type 0
IsTarget start size (b, bytes) = (b < 2 ^ 32) × ((b < start) ⊎ (start + size ≤ b))

-- what the writes of `ws`, the first 4088 bytes of each, make of the blocks
unfoldable pub apply_all : List (ℕ × List ℕ) → (ℕ → List ℕ) → ℕ → List ℕ
unfolding write_at overlay
apply_all [] f = f
apply_all ((b, bytes) ∷ ws) f = apply_all ws (write_at b (overlay bytes (f b)) f)

-- the blocks with `n` of them zeroed, from `at` on
unfoldable pub cleared : ℕ → ℕ → (ℕ → List ℕ) → ℕ → List ℕ
unfolding write_at zeros
cleared at zero f = f
cleared at (suc n) f = cleared (at + 1) n (write_at at (zeros 4096) f)

entry_type-write_entry : (b : ℕ) (bytes : List ℕ) → entry_type (write_entry b bytes) ≡ 1
unfolding entry_type write_entry to_le32 le32
entry_type-write_entry b bytes = refl

entry_block-write_entry :
    (b : ℕ) (bytes : List ℕ) → b < 2 ^ 32 → entry_block (write_entry b bytes) ≡ b
unfolding entry_block write_entry to_le32 le32
entry_block-write_entry b bytes h = unfold to_le32 le32 in le32-to_le32 b h

entry_type-commit_entry : entry_type commit_entry ≡ 2
unfolding entry_type commit_entry to_le32 le32
entry_type-commit_entry = refl

pub entry_type-zeros : entry_type (zeros 4096) ≡ 0
unfolding entry_type zeros le32
entry_type-zeros = refl

overlay-write_entry :
    (b : ℕ) (bytes blk : List ℕ) → overlay (drop 8 (write_entry b bytes)) blk ≡ overlay bytes blk
unfolding overlay write_entry to_le32
overlay-write_entry b bytes blk =
    rw (take_all 4088 (take 4088 bytes) (omega (arith, length-take 4088 bytes))) refl

pub write_at-ne :
    (b : ℕ) (bytes : List ℕ) (f : ℕ → List ℕ) (x : ℕ)
    → (x < b) ⊎ (b < x)
    → write_at b bytes f x ≡ f x
unfolding write_at
write_at-ne b bytes f x h = let other : (x == b) ≡ false = ground arith in rw other refl

pub Slots-agree :
    (f g : ℕ → List ℕ) (at : ℕ) (ws : List (ℕ × List ℕ))
    → ((x : ℕ) → at ≤ x → x < at + length ws → g x ≡ f x)
    → Slots f at ws
    → Slots g at ws
unfolding Slots
Slots-agree f g at [] agree h = tt
Slots-agree f g at ((b, bytes) ∷ ws) agree (here, rest) = (
  agree at (omega arith) (omega arith) ∙ here,
  Slots-agree f g (at + 1) ws (λ x low high. agree x (omega arith) (omega arith)) rest,
)

pub Slots-entry_type :
    (f : ℕ → List ℕ) (at : ℕ) (ws : List (ℕ × List ℕ)) (x : ℕ)
    → Slots f at ws
    → at ≤ x
    → x < at + length ws
    → entry_type (f x) < 2
unfolding Slots
Slots-entry_type f at [] x h low high = absurd (omega arith)
Slots-entry_type f at ((b, bytes) ∷ ws) x (here, rest) low high = elim (Bool-cases (x == at)) [
  | inl same ↦
      let e : x ≡ at = ground arith in rw (e, here, entry_type-write_entry b bytes) (omega arith)
  | inr later ↦ Slots-entry_type f (at + 1) ws x rest (ground arith) (omega arith)
]

scan-one :
    (left start size i : ℕ) (f : ℕ → List ℕ)
    → IsArea start size
    → i < size
    → entry_type (f (start + i)) < 2
    → scan start (sound f) i (suc left) ≡ scan start (sound f) (i + 1) left
unfolding scan scan_entry
scan-one left start size i f area fits passed = rw (slot_lem start size i area fits) (ground arith)

-- The scan passes over a run of entries that are of type 0 or 1.
scan-pass :
    (n left total start size i : ℕ) (f : ℕ → List ℕ)
    → IsArea start size
    → total ≡ n + left
    → i + total ≤ size
    → ((k : ℕ) → i ≤ k → k < i + n → entry_type (f (start + k)) < 2)
    → scan start (sound f) i total ≡ scan start (sound f) (i + n) left
scan-pass zero left total start size i f area e fits types =
    let at : i ≡ i + 0 = omega arith in
    let same : total ≡ left = omega arith in ap₂ (λ (k l : ℕ). scan start (sound f) k l) at same
scan-pass (suc n) left zero start size i f area e fits types = absurd (omega arith)
scan-pass (suc n) left (suc total) start size i f area e fits types =
    let at : i + 1 + n ≡ i + suc n = omega arith in
    scan-one total start size i f area (omega arith) (types i (omega arith) (omega arith))
    ∙ scan-pass n left total start size (i + 1) f area (omega arith) (omega arith)
        (λ k low high. types k (omega arith) (omega arith))
    ∙ ap (λ (k : ℕ). scan start (sound f) k left) at

scan-commit :
    (left start size i : ℕ) (f : ℕ → List ℕ)
    → IsArea start size
    → i < size
    → f (start + i) ≡ commit_entry
    → scan start (sound f) i (suc left) ≡ found_commit i
unfolding scan scan_entry
scan-commit left start size i f area fits marker =
    rw (slot_lem start size i area fits, marker, entry_type-commit_entry) refl

-- With no entry but of types 0 and 1, recovery replays nothing and writes nothing.
pub journal_recover-no_commit :
    (start size head : ℕ) (f : ℕ → List ℕ)
    → IsArea start size
    → ((k : ℕ) → k < size → entry_type (f (start + k)) < 2)
    → journal_recover (journal start size head f) ≡ ok (journal start size 0 f)
unfolding journal_recover recover_from
journal_recover-no_commit start size head f area types =
    rw (no_journal_lem start size head f area, scanned) refl
  where
    scanned : scan start (sound f) 0 size ≡ no_commit
    scanned =
        scan-pass size 0 size start size 0 f area (omega arith) (omega arith)
          (λ k low high. types k (omega arith))
        ∙ unfold scan in refl

Slots-write_at :
    (f : ℕ → List ℕ) (at : ℕ) (ws : List (ℕ × List ℕ)) (b : ℕ) (bytes : List ℕ)
    → (b < at) ⊎ (at + length ws ≤ b)
    → Slots f at ws
    → Slots (write_at b bytes f) at ws
Slots-write_at f at ws b bytes outside =
    Slots-agree f (write_at b bytes f) at ws
      (λ x low high. write_at-ne b bytes f x (apart x low high outside))
  where
    apart :
        (x : ℕ) → at ≤ x → x < at + length ws → (b < at) ⊎ (at + length ws ≤ b) → (x < b) ⊎ (b < x)
    apart x low high (inl h) = inr (omega arith)
    apart x low high (inr h) = inl (omega arith)

replay-one :
    (b : ℕ) (bytes : List ℕ) (start size i : ℕ) (f : ℕ → List ℕ)
    → IsArea start size
    → i < size
    → b < 2 ^ 32
    → f (start + i) ≡ write_entry b bytes
    → replay_entry start i (sound f) ≡ ok (sound (write_at b (overlay bytes (f b)) f))
unfolding replay_entry write_block read_or_zeros
replay-one b bytes start size i f area fits small entry =
    rw
      (
        slot_lem start size i area fits,
        entry,
        entry_type-write_entry b bytes,
        entry_block-write_entry b bytes small,
        overlay-write_entry b bytes (f b),
      )
      refl

pub replay_lem :
    (ws : List (ℕ × List ℕ)) (start size i at : ℕ) (f : ℕ → List ℕ)
    → IsArea start size
    → at ≡ start + i
    → i + length ws ≤ size
    → All (IsTarget start size) ws
    → Slots f at ws
    → replay start i (length ws) (sound f) ≡ ok (sound (apply_all ws f))
unfolding replay apply_all Slots IsTarget and_then same
replay_lem [] start size i at f area e fits targets h = refl
replay_lem ((b, bytes) ∷ ws) start size i at f area e fits ((small, outside), targets)
      (here, rest) =
    let first : f (start + i) ≡ write_entry b bytes = ap f (omega arith) ∙ here in
    rw (replay-one b bytes start size i f area (omega arith) small first) (
      replay_lem ws start size (i + 1) (at + 1) (write_at b (overlay bytes (f b)) f) area
        (omega arith) (omega arith) targets
        (Slots-write_at f (at + 1) ws b (overlay bytes (f b)) (behind outside) rest))
  where
    behind : (b < start) ⊎ (start + size ≤ b) → (b < at + 1) ⊎ (at + 1 + length ws ≤ b)
    behind (inl low) = inl (omega arith)
    behind (inr high) = inr (omega arith)

pub clear_lem :
    (n start size i at : ℕ) (f : ℕ → List ℕ)
    → IsArea start size
    → at ≡ start + i
    → i + n ≤ size
    → clear start i n (sound f) ≡ ok (sound (cleared at n f))
unfolding clear cleared and_then same write_block
clear_lem zero start size i at f area e fits = refl
clear_lem (suc n) start size i at f area e fits = rw (slot_lem start size i area (omega arith)) (
    rw (sym e) (
      clear_lem n start size (i + 1) (at + 1) (write_at at (zeros 4096) f) area (omega arith)
        (omega arith)))

-- With entries of `ws` and a commit marker behind them, recovery applies the writes in their order
-- and zeroes the entries and the marker.
pub journal_recover-commit :
    (ws : List (ℕ × List ℕ)) (start size head : ℕ) (f : ℕ → List ℕ)
    → IsArea start size
    → length ws < size
    → All (IsTarget start size) ws
    → Slots f start ws
    → f (start + length ws) ≡ commit_entry
    → journal_recover (journal start size head f)
      ≡ ok (journal start size 0 (cleared start (length ws + 1) (apply_all ws f)))
unfolding journal_recover recover_from and_then same
journal_recover-commit ws start size head f area fits targets slots marker =
    rw
      (
        no_journal_lem start size head f area,
        scanned,
        replay_lem ws start size 0 start f area (omega arith) (omega arith) targets slots,
        clear_lem (length ws + 1) start size 0 start (apply_all ws f) area (omega arith)
            (omega arith),
      )
      refl
  where
    scanned : scan start (sound f) 0 size ≡ found_commit (length ws)
    scanned =
        scan-pass (length ws) (suc (size - length ws - 1)) size start size 0 f area (omega arith)
          (omega arith)
          (λ k low high. Slots-entry_type f start ws (start + k) slots (omega arith) (omega arith))
        ∙ ap (λ (k : ℕ). scan start (sound f) k (suc (size - length ws - 1))) (omega arith)
        ∙ scan-commit (size - length ws - 1) start size (length ws) f area fits marker
