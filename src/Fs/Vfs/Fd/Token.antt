-- ===== src/Fs/Vfs/Fd/Token.antt =====
-- kernel/src/fs/vfs/vnode.rs: the tokens that stand for open descriptors.
use slipper_kernel.Prelude.{ℕ, ◌+◌, ◌*◌, ◌%◌, ◌^◌, ◌<◌, ◌≡◌, ap, ◌∙◌, arith, bit_or, bit_or-shift}
use slipper_kernel.Fs.Vfs.Fd.{fd_token, fd_token_idx, fd_token_epoch}

fd_token_lem :
    (idx epoch : ℕ) → idx < 2 ^ 32 → epoch < 2 ^ 32 → fd_token idx epoch ≡ idx * 2 ^ 32 + epoch
unfolding fd_token
fd_token_lem idx epoch hi he =
    let small : idx * 2 ^ 32 % 2 ^ 64 ≡ idx * 2 ^ 32 = omega arith in
    ap (λ m. bit_or m epoch) small ∙ bit_or-shift 32 idx epoch he

-- A token of an index and an epoch of 32 bits gives both back.
pub fd_token_idx-fd_token :
    (idx epoch : ℕ)
    → idx < 2 ^ 32
    → epoch < 2 ^ 32
    → (fd_token_idx (fd_token idx epoch) ≡ idx) × (fd_token_epoch (fd_token idx epoch) ≡ epoch)
unfolding fd_token_idx fd_token_epoch
fd_token_idx-fd_token idx epoch hi he =
    let e = fd_token_lem idx epoch hi he in rw e (omega arith, omega arith)
