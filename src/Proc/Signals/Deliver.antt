-- ===== src/Proc/Signals/Deliver.antt =====
-- kernel/src/proc/signals.rs: which signal signal_check takes, and the return from a handler.
use slipper_kernel.Prelude.{
  ℕ, zero, suc, ◌+◌, ◌*◌, ◌-◌, ◌^◌, ◌≤◌, ◌<◌, min, Bool, true, false, Bool-cases, inl, inr, none,
  some, ◌≡◌, refl, sym, ap, ◌∙◌, arith, ◌==◌, ◌||◌, if◌then◌else◌, get_or, bit, bit-lt, bit-nonzero,
  bit_and, bit_not, bit-bit_and, bit-bit_not, test_bit, test_bit_lem, clear_bit,
}
use slipper_kernel.Proc.Frame.{TrapFrame}
use slipper_kernel.Proc.Signals.{
  Process, sig_kill, Checked, checked, lowest, deliver, signal_check, sigreturn,
}

-- the signals that may be delivered
unfoldable pub deliverable : Process → ℕ
deliverable p = bit_and p.pending_signals (bit_not 32 p.signal_mask)

-- A pending KILL ends the process with 137, whatever its mask, its handlers and its state.
pub signal_check-kill :
    (p : Process) (tf : TrapFrame)
    → bit p.pending_signals sig_kill ≡ 1
    → (signal_check p tf).exit_code ≡ some 137
unfolding signal_check
signal_check-kill p tf pending =
    let test : test_bit p.pending_signals sig_kill ≡ true =
      test_bit_lem p.pending_signals sig_kill ∙ rw pending refl in
    rw test refl

-- a signal that is pending and not masked, and no lower one is
unfoldable pub IsNext : ℕ → Process → Type 0
IsNext signum p =
    (0 < signum)
    × (signum < 32)
    × (bit p.pending_signals signum ≡ 1)
    × (bit p.signal_mask signum ≡ 0)
    × ((i : ℕ) → 0 < i → i < signum → bit p.pending_signals i * (1 - bit p.signal_mask i) ≡ 0)

bit-deliverable :
    (p : Process) (i : ℕ)
    → p.signal_mask < 2 ^ 32
    → i < 32
    → bit (deliverable p) i ≡ min (bit p.pending_signals i) (1 - bit p.signal_mask i)
unfolding deliverable
bit-deliverable p i small h =
    bit-bit_and p.pending_signals (bit_not 32 p.signal_mask) i
    ∙ ap (λ (b : ℕ). min (bit p.pending_signals i) b) (bit-bit_not 32 p.signal_mask i small h)

lowest_lem :
    (pending i left s : ℕ)
    → bit pending s ≡ 1
    → i ≤ s
    → s < i + left
    → ((j : ℕ) → i ≤ j → j < s → bit pending j ≡ 0)
    → lowest pending i left ≡ s
unfolding lowest
lowest_lem pending i zero s set low high none_lower = absurd (omega arith)
lowest_lem pending i (suc left) s set low high none_lower = elim (Bool-cases (i == s)) [
  | inl at ↦
      let e : i ≡ s = ground arith in
      let test : test_bit pending i ≡ true = test_bit_lem pending i ∙ rw (e, set) refl in rw test e
  | inr before ↦
      let test : test_bit pending i ≡ false =
        test_bit_lem pending i ∙ rw (none_lower i (omega arith) (ground arith)) refl in
      rw test (
        lowest_lem pending (i + 1) left s set (ground arith) (omega arith)
          (λ j low' high'. none_lower j (omega arith) high'))
]

either : (x y : ℕ) → x < 2 → y < 2 → x * (1 - y) ≡ 0 → min x (1 - y) ≡ 0
either zero y p q h = omega arith
either (suc x) y p q h = omega arith

-- With no KILL pending and no handler running, signal_check delivers the lowest signal that is
-- pending and not masked.
pub signal_check-deliver :
    (p : Process) (tf : TrapFrame) (signum : ℕ)
    → p.signal_mask < 2 ^ 32
    → bit p.pending_signals sig_kill ≡ 0
    → p.in_signal_handler ≡ false
    → IsNext signum p
    → signal_check p tf ≡ deliver signum p tf
unfolding signal_check IsNext deliverable
signal_check-deliver p tf signum small no_kill idle (low, high, pending, unmasked, lower) =
    let test : test_bit p.pending_signals sig_kill ≡ false =
      test_bit_lem p.pending_signals sig_kill ∙ rw no_kill refl in
    rw (test, idle, found, some_pending) (ground arith)
  where
    set : bit (bit_and p.pending_signals (bit_not 32 p.signal_mask)) signum ≡ 1
    set = bit-deliverable p signum small high ∙ omega arith

    found : lowest (bit_and p.pending_signals (bit_not 32 p.signal_mask)) 1 31 ≡ signum
    found =
        lowest_lem (bit_and p.pending_signals (bit_not 32 p.signal_mask)) 1 31 signum set
          (omega arith) (omega arith)
          (λ j low' high'.
            bit-deliverable p j small (omega arith)
            ∙ either (bit p.pending_signals j) (bit p.signal_mask j) (bit-lt p.pending_signals j)
                (bit-lt p.signal_mask j) (lower j (omega arith) high'))

    some_pending : (bit_and p.pending_signals (bit_not 32 p.signal_mask) == 0) ≡ false
    some_pending = bit-nonzero (bit_and p.pending_signals (bit_not 32 p.signal_mask)) signum set

-- what entering a handler leaves in the process
Entered : Checked → TrapFrame → Type 0
Entered c tf = c.process.in_signal_handler ≡ true → c.process.saved_tf ≡ tf

deliver-Entered :
    (signum : ℕ) (p : Process) (tf : TrapFrame)
    → p.in_signal_handler ≡ false
    → Entered (deliver signum p tf) tf
unfolding Entered deliver
deliver-Entered signum p tf idle = elim (Bool-cases (get_or p.signal_handlers signum 0 == 0)) [
  | inl default ↦ rw default (λ h. absurd (let e : false ≡ true = sym idle ∙ h in absurd cc))
  | inr handled ↦ elim (Bool-cases (get_or p.signal_handlers signum 0 == 1)) [
    | inl ignored ↦
        rw (handled, ignored) (λ h. absurd (let e : false ≡ true = sym idle ∙ h in absurd cc))
    | inr caught ↦ rw (handled, caught) (λ h. refl)
  ]
]

signal_check-Entered :
    (p : Process) (tf : TrapFrame) → p.in_signal_handler ≡ false → Entered (signal_check p tf) tf
unfolding signal_check
signal_check-Entered p tf idle = chosen (test_bit p.pending_signals sig_kill) p.in_signal_handler (
    (bit_and p.pending_signals (bit_not 32 p.signal_mask) == 0)
    || (lowest (bit_and p.pending_signals (bit_not 32 p.signal_mask)) 1 31 == 0))
  where
    given : Checked
    given = deliver (lowest (bit_and p.pending_signals (bit_not 32 p.signal_mask)) 1 31) p tf

    unchanged : (c : Checked) → c.process.in_signal_handler ≡ p.in_signal_handler → Entered c tf
    unchanged c same =
        unfold Entered in λ h. absurd (let e : false ≡ true = sym idle ∙ sym same ∙ h in absurd cc)

    killed : Checked
    killed =
        checked (record p { pending_signals = clear_bit 32 p.pending_signals sig_kill }) tf
          (some (128 + sig_kill))

    chosen :
        (kill busy none_left : Bool)
        → Entered
            (if kill
              then killed
              else if busy
              then checked p tf none
              else if none_left
              then checked p tf none
              else given)
            tf
    chosen true busy none_left = unchanged killed refl
    chosen false true none_left = unchanged (checked p tf none) refl
    chosen false false true = unchanged (checked p tf none) refl
    chosen false false false =
        deliver-Entered (lowest (bit_and p.pending_signals (bit_not 32 p.signal_mask)) 1 31) p tf
          idle

-- When signal_check enters a handler, the sigreturn that follows gives back exactly the frame that
-- was interrupted, whatever the handler's own frame is by then, and ends the handler.
pub sigreturn-signal_check :
    (p : Process) (tf tf' : TrapFrame)
    → p.in_signal_handler ≡ false
    → (signal_check p tf).process.in_signal_handler ≡ true
    → ((sigreturn (signal_check p tf).process tf').1 ≡ tf)
      × ((sigreturn (signal_check p tf).process tf').0.in_signal_handler ≡ false)
sigreturn-signal_check p tf tf' idle entered =
    returned (signal_check p tf) entered (signal_check-Entered p tf idle)
  where
    returned :
        (c : Checked)
        → c.process.in_signal_handler ≡ true
        → Entered c tf
        → ((sigreturn c.process tf').1 ≡ tf)
          × ((sigreturn c.process tf').0.in_signal_handler ≡ false)
    returned c inside e = unfold sigreturn Entered in rw inside (e inside, refl)
