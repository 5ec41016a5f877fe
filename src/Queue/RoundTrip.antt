-- ===== src/Queue/RoundTrip.antt =====
-- datatypes/LocalQueue.h: what has been put into a local queue comes out again, in order.
use transactional_data_struc.Base.{
  ℕ, zero, suc, ◌<◌, true, List, [], ◌∷◌, ◌++◌, ◌≡◌, refl, sym, ◌∙◌, ap, subst, length,
}
use transactional_data_struc.Effect.{ok, throw, empty_queue, pure, ◌>>=◌}
use transactional_data_struc.Queue.{LocalQueue, QueueOp}
use transactional_data_struc.Queue.Local.{empty, enqueue, dequeue, is_empty}
use transactional_data_struc.Queue.Fifo.{W}
use transactional_data_struc.Queue.Chain.{Items}
use transactional_data_struc.Queue.LocalFifo.{LocalHolds, enqueue-snoc, dequeue-cons, dequeue-empty}

-- Calls of `enqueue`, and of `dequeue`, one after the other.
unfoldable pub enqueue_all : List ℕ → LocalQueue → QueueOp LocalQueue
enqueue_all [] l = pure l
enqueue_all (v ∷ vs) l = do l' ← enqueue v l; enqueue_all vs l'

unfoldable pub dequeue_all : ℕ → LocalQueue → QueueOp (List ℕ × LocalQueue)
dequeue_all zero l = pure ([], l)
dequeue_all (suc n) l = do (v, l') ← dequeue l; (vs, l'') ← dequeue_all n l'; pure (v ∷ vs, l'')

abbrev values : Items → List ℕ
values [] = []
values ((a, v) ∷ xs) = v ∷ values xs

values-snoc :
    (a v : ℕ) (xs : Items) (vs : List ℕ)
    → values (xs ++ ((a, v) ∷ [])) ++ vs ≡ values xs ++ (v ∷ vs)
values-snoc a v [] vs = refl
values-snoc a v ((b, u) ∷ xs) vs = ap (λ ys. u ∷ ys) (values-snoc a v xs vs)

++-[] : (vs : List ℕ) → vs ++ [] ≡ vs
++-[] [] = refl
++-[] (v ∷ vs) = ap (λ ys. v ∷ ys) (++-[] vs)

length-values : (xs : Items) → length (values xs) ≡ length xs
length-values [] = refl
length-values ((a, v) ∷ xs) = ap suc (length-values xs)

enqueue_all-Holds :
    (vs : List ℕ) (w : W) (l : LocalQueue) (xs : Items)
    → LocalHolds w.shared l xs
    → (l' : LocalQueue) × (w' : W) × (ys : Items) × (enqueue_all vs l w [] ≡ ok l' w' [])
      × LocalHolds w'.shared l' ys
      × (values ys ≡ values xs ++ vs)
unfolding enqueue_all
enqueue_all-Holds [] w l xs h = (l, w, xs, refl, h, sym (++-[] (values xs)))
enqueue_all-Holds (v ∷ vs) w l xs h =
    let (l1, w1, run, h1) = enqueue-snoc v w l xs h in
    let (l2, w2, ys, rest, h2, e) =
      enqueue_all-Holds vs w1 l1 (xs ++ ((w.shared.fresh, v) ∷ [])) h1 in
    (l2, w2, ys, rw (run, rest), h2, e ∙ values-snoc w.shared.fresh v xs vs)

dequeue_all-values :
    (xs : Items) (w : W) (l : LocalQueue)
    → LocalHolds w.shared l xs
    → (l' : LocalQueue) × (w' : W) × (dequeue_all (length xs) l w [] ≡ ok (values xs, l') w' [])
      × LocalHolds w'.shared l' []
unfolding dequeue_all
dequeue_all-values [] w l h = (l, w, refl, h)
dequeue_all-values ((a, v) ∷ xs) w l h =
    let (l1, w1, run, h1) = dequeue-cons a v w l xs h in
    let (l2, w2, rest, h2) = dequeue_all-values xs w1 l1 h1 in (l2, w2, rw (run, rest), h2)

empty-Holds : (w : W) → 0 < w.shared.fresh → LocalHolds w.shared empty []
empty-Holds w room = record {
  linked = refl;
  tail = refl;
  distinct = tt;
  below = λ p i. cc;
  room = room;
  size = refl;
}

-- The values that are enqueued in a new local queue come out in their order when as many are
-- dequeued; the queue then says that it is empty, and a further dequeue throws
-- EmptyQueueException. Addresses are fresh above the null pointer.
pub dequeue_all-enqueue_all :
    (vs : List ℕ) (w : W)
    → 0 < w.shared.fresh
    → (l : LocalQueue) × (v : W) × (l' : LocalQueue) × (v' : W) × (enqueue_all vs empty w []
        ≡ ok l v [])
      × (dequeue_all (length vs) l v [] ≡ ok (vs, l') v' [])
      × (is_empty l' ≡ true)
      × (dequeue l' v' [] ≡ throw empty_queue v' [])
unfolding is_empty
dequeue_all-enqueue_all vs w room =
    let (l, v, ys, run, h, e) = enqueue_all-Holds vs w empty [] (empty-Holds w room) in
    let (l', v', out, h') = dequeue_all-values ys v l h in
    let same : length ys ≡ length vs = sym (length-values ys) ∙ ap length e in
    (
      l,
      v,
      l',
      v',
      run,
      subst (λ n. dequeue_all n l v [] ≡ ok (vs, l') v' []) same
          (out ∙ ap (λ us. ok (us, l') v' []) e),
      rw h'.size,
      dequeue-empty v' l' h',
    )
