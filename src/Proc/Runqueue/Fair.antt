-- ===== src/Proc/Runqueue/Fair.antt =====
-- kernel/src/proc/scheduler/runqueue.rs: every process on the queue gets its turn.
use slipper_kernel.Prelude.{
  ℕ, zero, suc, ◌≡◌, refl, ◌∙◌, arith, List, [], ◌∷◌, ◌++◌, get_elem?, Option, some, Bool, true,
  Bool-cases, inl, inr, ◌==◌,
}
use slipper_kernel.Proc.Runqueue.{
  RunQueue, set_on_rq, enqueue, dequeue, IsRunQueue, count, enqueue_lem,
}

unfoldable pub enqueue_all : List ℕ → RunQueue → RunQueue
unfolding enqueue
enqueue_all [] rq = rq
enqueue_all (p ∷ ps) rq = enqueue_all ps (enqueue p rq)

-- The process of the round `k`: in each round some processes are put on the queue, and then one is
-- taken off it.
unfoldable pub served : ℕ → (ℕ → List ℕ) → RunQueue → Option ℕ
unfolding enqueue_all dequeue
served zero new rq = (dequeue (enqueue_all (new 0) rq)).0
served (suc k) new rq = served k (λ i. new (suc i)) ((dequeue (enqueue_all (new 0) rq)).1)

get_elem?-append {ℓ} :
    {A : Type ℓ} (xs ys : List A) (k : ℕ) (x : A)
    → get_elem? xs k ≡ some x
    → get_elem? (xs ++ ys) k ≡ some x
get_elem?-append [] ys k x h = absurd cc
get_elem?-append (z ∷ xs) ys zero x h = h
get_elem?-append (z ∷ xs) ys (suc k) x h = get_elem?-append xs ys k x h

get_elem?-enqueue :
    (q : ℕ) (rq : RunQueue) (k p : ℕ)
    → get_elem? rq.queue k ≡ some p
    → get_elem? ((enqueue q rq).queue) k ≡ some p
unfolding enqueue
get_elem?-enqueue q rq k p h = elim (Bool-cases (rq.on_rq q)) [
  | inl on ↦ rw on h
  | inr off ↦ rw off (get_elem?-append rq.queue (q ∷ []) k p h)
]

get_elem?-enqueue_all :
    (qs : List ℕ) (rq : RunQueue) (k p : ℕ)
    → get_elem? rq.queue k ≡ some p
    → get_elem? ((enqueue_all qs rq).queue) k ≡ some p
unfolding enqueue_all
get_elem?-enqueue_all [] rq k p h = h
get_elem?-enqueue_all (q ∷ qs) rq k p h =
    get_elem?-enqueue_all qs (enqueue q rq) k p (get_elem?-enqueue q rq k p h)

dequeue-first :
    (queue : List ℕ) (nr_ready : ℕ) (on_rq : ℕ → Bool) (p : ℕ)
    → get_elem? queue 0 ≡ some p
    → (dequeue (record { queue = queue; nr_ready = nr_ready; on_rq = on_rq })).0 ≡ some p
unfolding dequeue
dequeue-first [] nr_ready on_rq p h = absurd cc
dequeue-first (q ∷ queue) nr_ready on_rq p h = h

dequeue-later :
    (queue : List ℕ) (nr_ready : ℕ) (on_rq : ℕ → Bool) (k p : ℕ)
    → get_elem? queue (suc k) ≡ some p
    → get_elem? ((dequeue (record { queue = queue; nr_ready = nr_ready; on_rq = on_rq })).1.queue) k
      ≡ some p
unfolding dequeue
dequeue-later [] nr_ready on_rq k p h = absurd cc
dequeue-later (q ∷ queue) nr_ready on_rq k p h = h

-- A process with `k` others before it on the queue is the one that the dequeue of round `k` gives,
-- counted from 0, whatever processes are put on the queue between the rounds.
pub served_lem :
    (k : ℕ) (new : ℕ → List ℕ) (rq : RunQueue) (p : ℕ)
    → get_elem? rq.queue k ≡ some p
    → served k new rq ≡ some p
unfolding served
served_lem zero new rq p h =
    let rq' : RunQueue = enqueue_all (new 0) rq in
    dequeue-first rq'.queue rq'.nr_ready rq'.on_rq p (get_elem?-enqueue_all (new 0) rq 0 p h)
served_lem (suc k) new rq p h =
    let rq' : RunQueue = enqueue_all (new 0) rq in
    served_lem k (λ i. new (suc i)) ((dequeue rq').1) p
      (dequeue-later rq'.queue rq'.nr_ready rq'.on_rq k p
        (get_elem?-enqueue_all (new 0) rq (suc k) p h))

enqueue-on_rq : (p : ℕ) (rq : RunQueue) → (enqueue p rq).on_rq p ≡ true
unfolding enqueue set_on_rq
enqueue-on_rq p rq = elim (Bool-cases (rq.on_rq p)) [
  | inl on ↦ rw (on, on) refl
  | inr off ↦ let same : (p == p) ≡ true = ground arith in rw (off, same) refl
]

-- A process that has been put on the queue is on it once.
pub count-enqueue : (p : ℕ) (rq : RunQueue) → IsRunQueue rq → count p ((enqueue p rq).queue) ≡ 1
unfolding IsRunQueue
count-enqueue p rq h = (enqueue_lem p rq h).0.1 p ∙ rw (enqueue-on_rq p rq) refl
