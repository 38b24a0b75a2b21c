-- ===== src/Proc/Signals/Masks.antt =====
-- kernel/src/proc/signals.rs: KILL and STOP stay unmasked.
use slipper_kernel.Prelude.{
  ℕ, ◌+◌, ◌%◌, ◌^◌, ◌<◌, List, Option, none, some, Bool, true, false, Bool-cases, inl, inr, ◌≡◌,
  refl, sym, subst, ap, ◌∙◌, arith, ◌==◌, ◌||◌, leb, if◌then◌else◌, get_or, set, bit, bit_and,
  bit_or, bit_not, bit-bit_and, bit-bit_or, bit-bit_not, bit-pow, max, ◌≢◌, test_bit, clear_bit,
}
use slipper_kernel.Core.Errno.{Errno}
use slipper_kernel.Proc.Frame.{TrapFrame}
use slipper_kernel.Proc.Signals.{
  Process, sig_kill, sig_stop, posted, is_waiting, Pointer, null, unmapped, words, set_action,
  sigaction, protected, new_signal_mask, set_mask, change_mask, sigprocmask, sigreturn, Checked,
  checked, lowest, deliver, signal_check,
}

-- Neither KILL nor STOP is in the mask.
unfoldable pub NeverMasks : ℕ → Type 0
NeverMasks mask = (bit mask sig_kill ≡ 0) × (bit mask sig_stop ≡ 0)

-- What one call makes of the process. The mask that sigaction is given has neither bit.
pub data SignalStep : Process → Process → Type 0 where
  sent : (signal : ℕ) (p : Process) → SignalStep p (posted signal p)
  masked :
      (how : ℕ) (set oldset : Pointer) (p q : Process) (e : Option Errno) (old : List ℕ)
      → sigprocmask how set oldset p ≡ (e, (old, q))
      → SignalStep p q
  acted :
      (signum : ℕ) (ws : List ℕ) (oldact : Pointer) (p q : Process) (e : Option Errno)
      (old : List ℕ)
      → NeverMasks (get_or ws 1 0 % 2 ^ 32)
      → sigaction signum (words ws) oldact p ≡ (e, (old, q))
      → SignalStep p q
  delivered : (tf : TrapFrame) (p q : Process) → (signal_check p tf).process ≡ q → SignalStep p q
  returned : (tf tf' : TrapFrame) (p q : Process) → sigreturn p tf ≡ (q, tf') → SignalStep p q

pub data SignalReach : Process → Process → Type 0 where
  here : (p : Process) → SignalReach p p
  next : (p q r : Process) → SignalReach p q → SignalStep q r → SignalReach p r

protected_bits : (bit protected sig_kill ≡ 1) × (bit protected sig_stop ≡ 1)
protected_bits = (
  bit-bit_or (2 ^ 9) (2 ^ 19) 9 ∙ rw (bit-pow 9 9, bit-pow 19 9) refl,
  bit-bit_or (2 ^ 9) (2 ^ 19) 19 ∙ rw (bit-pow 9 19, bit-pow 19 19) refl,
)

-- What is not protected has neither bit.
allowed-NeverMasks : (new_mask : ℕ) → NeverMasks (bit_and new_mask (bit_not 32 protected))
unfolding NeverMasks
allowed-NeverMasks new_mask =
    let (kill, stop) = protected_bits in
    (
      omega (
        arith,
        bit-bit_and new_mask (bit_not 32 protected) sig_kill,
        bit-bit_not 32 protected sig_kill (omega arith) (omega arith),
      ),
      omega (
        arith,
        bit-bit_and new_mask (bit_not 32 protected) sig_stop,
        bit-bit_not 32 protected sig_stop (omega arith) (omega arith),
      ),
    )

bit_or-NeverMasks : (a b : ℕ) → NeverMasks a → NeverMasks b → NeverMasks (bit_or a b)
unfolding NeverMasks
bit_or-NeverMasks a b (ka, sa) (kb, sb) =
    (omega (arith, bit-bit_or a b sig_kill), omega (arith, bit-bit_or a b sig_stop))

bit_and-NeverMasks : (a b : ℕ) → NeverMasks a → NeverMasks (bit_and a b)
unfolding NeverMasks
bit_and-NeverMasks a b (ka, sa) =
    (omega (arith, bit-bit_and a b sig_kill), omega (arith, bit-bit_and a b sig_stop))

-- the mask of the process that `set_mask` gives
set_mask-NeverMasks :
    (how new_mask : ℕ) (p : Process)
    → NeverMasks p.signal_mask
    → NeverMasks ((set_mask (new_signal_mask how p.signal_mask new_mask) p).1.signal_mask)
unfolding new_signal_mask set_mask
set_mask-NeverMasks how new_mask p h = elim (Bool-cases (how == 0)) [
  | inl block ↦ rw block (
      bit_or-NeverMasks p.signal_mask (bit_and new_mask (bit_not 32 protected)) h
        (allowed-NeverMasks new_mask))
  | inr not_block ↦ elim (Bool-cases (how == 1)) [
    | inl unblock ↦
        rw (not_block, unblock)
          (bit_and-NeverMasks p.signal_mask (bit_not 32 (bit_and new_mask (bit_not 32 protected)))
            h)
    | inr not_unblock ↦ elim (Bool-cases (how == 2)) [
      | inl set_all ↦ rw (not_block, not_unblock, set_all) (allowed-NeverMasks new_mask)
      | inr unknown ↦ rw (not_block, not_unblock, unknown) h
    ]
  ]
]

change_mask-NeverMasks :
    (how : ℕ) (set : Pointer) (p : Process)
    → NeverMasks p.signal_mask
    → NeverMasks ((change_mask how set p).1.signal_mask)
unfolding change_mask
change_mask-NeverMasks how null p h = h
change_mask-NeverMasks how unmapped p h = h
change_mask-NeverMasks how (words ws) p h = set_mask-NeverMasks how (get_or ws 0 0 % 2 ^ 32) p h

deliver-signal_mask :
    (signum : ℕ) (p : Process) (tf : TrapFrame)
    → (deliver signum p tf).process.signal_mask ≡ p.signal_mask
unfolding deliver
deliver-signal_mask signum p tf = elim (Bool-cases (get_or p.signal_handlers signum 0 == 0)) [
  | inl default ↦ rw default refl
  | inr handled ↦ elim (Bool-cases (get_or p.signal_handlers signum 0 == 1)) [
    | inl ignored ↦ rw (handled, ignored) refl
    | inr caught ↦ rw (handled, caught) refl
  ]
]

signal_check-signal_mask :
    (p : Process) (tf : TrapFrame) → (signal_check p tf).process.signal_mask ≡ p.signal_mask
unfolding signal_check
signal_check-signal_mask p tf = chosen (test_bit p.pending_signals sig_kill) p.in_signal_handler (
    (bit_and p.pending_signals (bit_not 32 p.signal_mask) == 0)
    || (lowest (bit_and p.pending_signals (bit_not 32 p.signal_mask)) 1 31 == 0))
  where
    killed : Checked
    killed =
        checked (record p { pending_signals = clear_bit 32 p.pending_signals sig_kill }) tf
          (some (128 + sig_kill))

    given : Checked
    given = deliver (lowest (bit_and p.pending_signals (bit_not 32 p.signal_mask)) 1 31) p tf

    chosen :
        (kill busy idle : Bool)
        → (if kill
            then killed
            else if busy
            then checked p tf none
            else if idle
            then checked p tf none
            else given).process.signal_mask
          ≡ p.signal_mask
    chosen true busy idle = refl
    chosen false true idle = refl
    chosen false false true = refl
    chosen false false false =
        deliver-signal_mask (lowest (bit_and p.pending_signals (bit_not 32 p.signal_mask)) 1 31) p
          tf

posted-signal_mask : (signal : ℕ) (p : Process) → (posted signal p).signal_mask ≡ p.signal_mask
unfolding posted
posted-signal_mask signal p = elim (Bool-cases (is_waiting p.state)) [
  | inl asleep ↦ rw asleep refl
  | inr awake ↦ rw awake refl
]

sigreturn-signal_mask :
    (p : Process) (tf : TrapFrame) → (sigreturn p tf).0.signal_mask ≡ p.signal_mask
unfolding sigreturn
sigreturn-signal_mask p tf = elim (Bool-cases p.in_signal_handler) [
  | inl inside ↦ rw inside refl
  | inr outside ↦ rw outside refl
]

sigaction-NeverMasks :
    (signum : ℕ) (ws : List ℕ) (oldact : Pointer) (p : Process)
    → NeverMasks (get_or ws 1 0 % 2 ^ 32)
    → NeverMasks p.signal_mask
    → NeverMasks ((sigaction signum (words ws) oldact p).1.1.signal_mask)
unfolding sigaction set_action
sigaction-NeverMasks signum ws oldact p allowed h =
    elim (Bool-cases
      ((signum == 0) || leb 32 signum || (signum == sig_kill) || (signum == sig_stop))) [
        | inl refused ↦ rw refused h
        | inr valid ↦ rw valid (bit_or-NeverMasks p.signal_mask (get_or ws 1 0 % 2 ^ 32) h allowed)
      ]

unfoldable pub process_of : Option Errno × (List ℕ × Process) → Process
process_of (e, (old, p)) = p

SignalStep-NeverMasks :
    (p q : Process) → SignalStep p q → NeverMasks p.signal_mask → NeverMasks q.signal_mask
unfolding process_of
SignalStep-NeverMasks _ _ (sent signal p) h = subst NeverMasks (sym (posted-signal_mask signal p)) h
SignalStep-NeverMasks _ _ (masked how set oldset p q e old run) h =
    subst (λ (r : Process). NeverMasks r.signal_mask) (ap process_of run)
      (unfold sigprocmask in change_mask-NeverMasks how set p h)
SignalStep-NeverMasks _ _ (acted signum ws oldact p q e old allowed run) h =
    subst (λ (r : Process). NeverMasks r.signal_mask) (ap process_of run)
      (sigaction-NeverMasks signum ws oldact p allowed h)
SignalStep-NeverMasks _ _ (delivered tf p q run) h =
    subst (λ (r : Process). NeverMasks r.signal_mask) run
      (subst NeverMasks (sym (signal_check-signal_mask p tf)) h)
SignalStep-NeverMasks _ _ (returned tf tf' p q run) h =
    subst (λ (r : Process). NeverMasks r.signal_mask) (ap (λ (t : Process × TrapFrame). t.0) run)
      (subst NeverMasks (sym (sigreturn-signal_mask p tf)) h)

-- A process whose mask has neither KILL nor STOP never gets them into it by any sequence of
-- signal_send, sigprocmask, signal_check, sigreturn, and of sigaction calls whose own mask has
-- neither of the two.
pub SignalReach-NeverMasks :
    (p q : Process) → SignalReach p q → NeverMasks p.signal_mask → NeverMasks q.signal_mask
SignalReach-NeverMasks _ _ (here p) h = h
SignalReach-NeverMasks _ _ (next p q r reach step) h =
    SignalStep-NeverMasks q r step (SignalReach-NeverMasks p q reach h)

-- For a signal from 1 to 31 other than KILL and STOP, and whatever pointer the old action goes to,
-- sigaction gives no error and leaves in the mask of the process each bit that was there and each of
-- the low 32 bits of the mask that it is given, and no other; so a given bit for STOP, which
-- sigprocmask would drop, masks STOP. An array of the old action that overlaps the new one is left
-- out.
pub sigaction-masks_stop :
    (signum i : ℕ) (ws : List ℕ) (oldact : Pointer) (p : Process)
    → 0 < signum
    → signum < 32
    → signum ≢ sig_kill
    → signum ≢ sig_stop
    → ((sigaction signum (words ws) oldact p).0 ≡ none)
      × (bit ((process_of (sigaction signum (words ws) oldact p)).signal_mask) i
          ≡ max (bit p.signal_mask i) (bit (get_or ws 1 0 % 2 ^ 32) i))
unfolding sigaction set_action process_of
sigaction-masks_stop signum i ws oldact p low high not_kill not_stop =
    let valid : ((signum == 0) || leb 32 signum || (signum == sig_kill) || (signum == sig_stop))
        ≡ false =
      ground arith in
    rw valid (refl, bit-bit_or p.signal_mask (get_or ws 1 0 % 2 ^ 32) i)
