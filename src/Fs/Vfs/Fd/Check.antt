-- ===== src/Fs/Vfs/Fd/Check.antt =====
-- kernel/src/fs/vfs/ops.rs: when `fd_check` accepts a token.
use slipper_kernel.Prelude.{
  ℕ, ◌+◌, ◌%◌, ◌^◌, ◌<◌, ◌≡◌, ◌≢◌, refl, ap, sym, ◌∙◌, arith, get_elem?, some, Bool, true, false,
  not, ◌||◌, leb, ◌==◌, if◌then◌else◌, Bool-cases, ◌⊎◌, inl, inr,
}
use slipper_kernel.Core.Errno.{ok, err, bad_fd}
use slipper_kernel.Fs.Vfs.Fd.{
  VfsFd, Vfs, vfs_max_fds, table, next_epoch, fd_get, fd_check, fd_token, fd_token_idx,
  fd_token_epoch,
}
use slipper_kernel.Fs.Vfs.Fd.Token.{fd_token_idx-fd_token}

pub fd_get_lem :
    (idx : ℕ) (v : Vfs) (fd : VfsFd) → get_elem? (table v) idx ≡ some fd → fd_get idx v ≡ fd
unfolding fd_get
fd_get_lem idx v fd h = rw (fd_get, h) refl

-- the tests of `fd_check`, passed
unfoldable pub IsValidToken : ℕ → Vfs → Type 0
IsValidToken token v =
    (fd_token_idx token < vfs_max_fds)
    × ((fd_get (fd_token_idx token) v).used ≡ true)
    × ((fd_get (fd_token_idx token) v).epoch ≡ fd_token_epoch token)

pub fd_check_valid :
    (token : ℕ) (v : Vfs) → IsValidToken token v → fd_check token v ≡ ok (fd_token_idx token)
unfolding IsValidToken fd_check
fd_check_valid token v (small, used, same) =
    let in_range : leb vfs_max_fds (fd_token_idx token) ≡ false = ground arith in
    let epochs : ((fd_get (fd_token_idx token) v).epoch == fd_token_epoch token) ≡ true =
      ground arith in
    rw (in_range, used, epochs)

guarded :
    (a b c : Bool) (x y : ℕ)
    → (if a then err bad_fd else if not b || not c then err bad_fd else ok x) ≡ ok y
    → (a ≡ false) × (b ≡ true) × (c ≡ true) × (y ≡ x)
guarded true b c x y h = absurd cc
guarded false false c x y h = absurd cc
guarded false true false x y h = absurd cc
guarded false true true x y h = (refl, refl, refl, cc)

pub fd_check_inverse :
    (token idx : ℕ) (v : Vfs)
    → fd_check token v ≡ ok idx
    → IsValidToken token v × (idx ≡ fd_token_idx token)
unfolding IsValidToken fd_check
fd_check_inverse token idx v h =
    let fd = fd_get (fd_token_idx token) v in
    let (small, used, same, at) =
      guarded (leb vfs_max_fds (fd_token_idx token)) fd.used (fd.epoch == fd_token_epoch token)
        (fd_token_idx token) idx h in
    ((ground arith, used, ground arith), at)

unused_or_other :
    (a b c : Bool) (x : ℕ)
    → (b ≡ false) ⊎ (c ≡ false)
    → (if a then err bad_fd else if not b || not c then err bad_fd else ok x) ≡ err bad_fd
unused_or_other true b c x why = refl
unused_or_other false b c x (inl e) = rw e refl
unused_or_other false true c x (inr e) = rw e refl
unused_or_other false false c x (inr e) = refl

pub fd_check_stale :
    (token : ℕ) (v : Vfs) (fd : VfsFd)
    → get_elem? (table v) (fd_token_idx token) ≡ some fd
    → (fd.used ≡ false) ⊎ (fd.epoch ≢ fd_token_epoch token)
    → fd_check token v ≡ err bad_fd
unfolding fd_check
fd_check_stale token v fd here why =
    ap
      (λ (f : VfsFd).
        if leb vfs_max_fds (fd_token_idx token)
        then err bad_fd
        else if not f.used || not (f.epoch == fd_token_epoch token)
        then err bad_fd
        else ok (fd_token_idx token))
      (fd_get_lem (fd_token_idx token) v fd here)
    ∙ unused_or_other (leb vfs_max_fds (fd_token_idx token)) fd.used
        (fd.epoch == fd_token_epoch token) (fd_token_idx token) (test why)
  where
    test :
        (fd.used ≡ false) ⊎ (fd.epoch ≢ fd_token_epoch token)
        → (fd.used ≡ false) ⊎ ((fd.epoch == fd_token_epoch token) ≡ false)
    test (inl e) = inl e
    test (inr ne) = inr (ground arith)

pub next_epoch_lem : (e : ℕ) → e < 2 ^ 32 → (next_epoch e ≢ e) × (next_epoch e < 2 ^ 32)
unfolding next_epoch
next_epoch_lem e h = elim (Bool-cases ((e + 1) % 2 ^ 32 == 0)) [
  | inl wraps ↦ rw wraps (ground arith, omega arith)
  | inr goes_on ↦ rw goes_on ((λ same. absurd (omega arith)), omega arith)
]

pub next_epoch-lt : (e : ℕ) → next_epoch e < 2 ^ 32
unfolding next_epoch
next_epoch-lt e = elim (Bool-cases ((e + 1) % 2 ^ 32 == 0)) [
  | inl wraps ↦ rw wraps (omega arith)
  | inr goes_on ↦ rw goes_on (omega arith)
]

-- The token made for a claimed entry is valid, whatever else the entry has.
pub fd_check-fd_token :
    (idx : ℕ) (v : Vfs) (fd : VfsFd)
    → idx < vfs_max_fds
    → get_elem? (table v) idx ≡ some fd
    → fd.used ≡ true
    → fd.epoch < 2 ^ 32
    → fd_check (fd_token idx (fd_get idx v).epoch) v ≡ ok idx
unfolding IsValidToken
fd_check-fd_token idx v fd small here used low =
    let entry = fd_get_lem idx v fd here in
    let (at, epoch) = fd_token_idx-fd_token idx fd.epoch (omega arith) low in
    let made : fd_token idx (fd_get idx v).epoch ≡ fd_token idx fd.epoch =
      ap (λ (f : VfsFd). fd_token idx f.epoch) entry in
    let got : fd_get (fd_token_idx (fd_token idx fd.epoch)) v ≡ fd =
      ap (λ i. fd_get i v) at ∙ entry in
    ap (λ t. fd_check t v) made
    ∙ fd_check_valid (fd_token idx fd.epoch) v (
      let e = at in omega arith,
      ap (λ (f : VfsFd). f.used) got ∙ used,
      ap (λ (f : VfsFd). f.epoch) got ∙ sym epoch,
    )
    ∙ ap ok at
