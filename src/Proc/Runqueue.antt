-- ===== src/Proc/Runqueue.antt =====
-- kernel/src/proc/scheduler/runqueue.rs: the queue of a hart's ready processes.
-- The queue that the code threads through `Proc::next`, from `head` to `tail`, is the list of its
-- processes' pids, the head first; `on_rq` is the field of that name of each process. The lock is
-- taken by the callers.
pub mod Fair
use slipper_kernel.Prelude.{
  ℕ, ◌+◌, ◌-◌, ◌≡◌, refl, ap, ◌∙◌, arith, List, [], ◌∷◌, ◌++◌, length, length-append, Option, none,
  some, Bool, true, false, not, ◌==◌, if◌then◌else◌, Bool-cases, inl, inr,
}

pub record RunQueue : Type 0 where
  pub queue : List ℕ
  pub nr_ready : ℕ
  pub on_rq : ℕ → Bool

pub set_on_rq : ℕ → Bool → (ℕ → Bool) → ℕ → Bool
set_on_rq p b on_rq q = if q == p then b else on_rq q

pub enqueue : ℕ → RunQueue → RunQueue
unfolding set_on_rq
enqueue p rq = if rq.on_rq p then rq else record {
  queue = rq.queue ++ (p ∷ []);
  nr_ready = rq.nr_ready + 1;
  on_rq = set_on_rq p true rq.on_rq;
}

-- the pid that `dequeue` returns, and the queue after; a null pointer is `none`
pub dequeue : RunQueue → Option ℕ × RunQueue
unfolding set_on_rq
dequeue rq = elim rq.queue [
  | [] ↦ (none, rq)
  | p ∷ rest ↦ (
    some p,
    record { queue = rest; nr_ready = rq.nr_ready - 1; on_rq = set_on_rq p false rq.on_rq },
  )
]

-- the list without the first `p`, and whether there was one
pub unlink : ℕ → List ℕ → Bool × List ℕ
unlink p [] = (false, [])
unlink p (q ∷ rest) =
    let (found, rest') = unlink p rest in if q == p then (true, rest) else (found, q ∷ rest')

pub removed : ℕ → RunQueue → Bool × List ℕ → Bool × RunQueue
unfolding set_on_rq
removed p rq (false, queue) = (false, rq)
removed p rq (true, queue) =
    (true, record { queue = queue; nr_ready = rq.nr_ready - 1; on_rq = set_on_rq p false rq.on_rq })

pub remove : ℕ → RunQueue → Bool × RunQueue
unfolding unlink removed
remove p rq = if not (rq.on_rq p) then (false, rq) else removed p rq (unlink p rq.queue)

-- how often `p` is in the queue
unfoldable pub count : ℕ → List ℕ → ℕ
count p [] = 0
count p (q ∷ rest) = (if q == p then 1 else 0) + count p rest

-- `nr_ready` is the length of the queue, and a process is in it once when its `on_rq` is set and not
-- at all otherwise.
unfoldable pub IsRunQueue : RunQueue → Type 0
IsRunQueue rq =
    (rq.nr_ready ≡ length rq.queue) × ((p : ℕ) → count p rq.queue ≡ (if rq.on_rq p then 1 else 0))

count-snoc :
    (p q : ℕ) (xs : List ℕ) → count p (xs ++ (q ∷ [])) ≡ count p xs + (if q == p then 1 else 0)
unfolding count
count-snoc p q [] = omega arith
count-snoc p q (x ∷ xs) = omega (arith, count-snoc p q xs)

-- A well-formed run queue stays so when a process is put on it, and a process that was not on it is
-- then its last; one that was on it changes nothing.
pub enqueue_lem :
    (p : ℕ) (rq : RunQueue)
    → IsRunQueue rq
    → IsRunQueue (enqueue p rq)
      × ((enqueue p rq).queue ≡ (if rq.on_rq p then rq.queue else rq.queue ++ (p ∷ [])))
unfolding enqueue IsRunQueue set_on_rq
enqueue_lem p rq (size, once) = elim (Bool-cases (rq.on_rq p)) [
  | inl on ↦ rw on ((size, once), refl)
  | inr off ↦
      rw off (
        (omega (arith, length-append rq.queue (p ∷ [])), (λ q. added q (once q) (once p) off)),
        refl,
      )
]
  where
    added :
        (q : ℕ)
        → count q rq.queue ≡ (if rq.on_rq q then 1 else 0)
        → count p rq.queue ≡ (if rq.on_rq p then 1 else 0)
        → rq.on_rq p ≡ false
        → count q (rq.queue ++ (p ∷ [])) ≡ (if (if q == p then true else rq.on_rq q) then 1 else 0)
    added q at_q at_p off = elim (Bool-cases (q == p)) [
      | inl same ↦
          let e : q ≡ p = ground arith in
          let absent : count q rq.queue ≡ 0 = ap (λ i. count i rq.queue) e ∙ at_p ∙ rw off refl in
          let back : (p == q) ≡ true = ground arith in
          rw same (count-snoc q p rq.queue ∙ rw (absent, back) (omega arith))
      | inr other ↦
          let back : (p == q) ≡ false = ground arith in
          rw other (count-snoc q p rq.queue ∙ rw (back, at_q) (omega arith))
    ]

-- what `dequeue` gives
unfoldable pub DequeueOutcome : RunQueue → Option ℕ × RunQueue → Type 0
DequeueOutcome rq (none, rq') = (rq.queue ≡ []) × (rq' ≡ rq)
DequeueOutcome rq (some p, rq') =
    (rq.queue ≡ p ∷ rq'.queue) × (rq'.on_rq p ≡ false) × IsRunQueue rq'

-- `dequeue` takes the first process off a well-formed run queue, which stays well formed and has the
-- others in their order; on an empty queue it gives none and changes nothing.
pub dequeue_lem :
    (queue : List ℕ) (nr_ready : ℕ) (on_rq : ℕ → Bool)
    → IsRunQueue (record { queue = queue; nr_ready = nr_ready; on_rq = on_rq })
    → DequeueOutcome
        (record { queue = queue; nr_ready = nr_ready; on_rq = on_rq })
        (dequeue (record { queue = queue; nr_ready = nr_ready; on_rq = on_rq }))
unfolding dequeue IsRunQueue DequeueOutcome set_on_rq count
dequeue_lem [] nr_ready on_rq h = (refl, refl)
dequeue_lem (p ∷ rest) nr_ready on_rq (size, once) =
    let same : (p == p) ≡ true = ground arith in
    (refl, rw same refl, (omega arith, (λ q. left q (once q))))
  where
    left :
        (q : ℕ)
        → (if p == q then 1 else 0) + count q rest ≡ (if on_rq q then 1 else 0)
        → count q rest ≡ (if (if q == p then false else on_rq q) then 1 else 0)
    left q at_q = elim (Bool-cases (q == p)) [
      | inl same ↦ rw same (ground arith)
      | inr other ↦ rw other (ground arith)
    ]
