-- ===== src/Queue/LocalFifo.antt =====
-- datatypes/LocalQueue.h: a local queue is a first-in first-out sequence.
use transactional_data_struc.Base.{
  ℕ, suc, ◌+◌, ◌<◌, ◌%◌, ◌^◌, true, false, some, [], ◌∷◌, ◌++◌, ◌≡◌, ◌≢◌, refl, sym, ap, ◌∙◌, subst,
  ◌==◌, has, has-ne, update, update_self, update_ne, update_comm, length, Distinct, arith,
  Bool-cases, inl, inr, eq→==, ne→==, ==→eq,
}
use transactional_data_struc.Effect.{ok, throw, empty_queue, if_true}
use transactional_data_struc.Queue.{QNode, Queue, LocalQueue, Ptr, is_null, up, down}
use transactional_data_struc.Queue.Local.{enqueue, dequeue}
use transactional_data_struc.Queue.Fifo.{W}
use transactional_data_struc.Queue.Chain.{
  Nodes, Items, addresses, last, last-has, Linked, Linked-snoc, Linked-last, Linked-frame, extended,
  length-snoc, has-snoc, Distinct-snoc, last-snoc,
}

-- The local queue `l` holds the items, on nodes that are in use.
pub record LocalHolds (q : Queue) (l : LocalQueue) (xs : Items) : Type 0 where
  pub linked : Linked q.nodes 0 l.head xs
  pub tail : l.tail ≡ last 0 xs
  pub distinct : Distinct (addresses xs)
  pub below : (p : Ptr) → has p (addresses xs) ≡ true → p < q.fresh
  pub room : 0 < q.fresh
  pub size : l.size ≡ length xs % 2 ^ 32

-- The node of a new value.
abbrev fresh_node : ℕ → Ptr → QNode
fresh_node v tail = record { val = v; prev = tail; next = 0 }

abbrev made : W → ℕ → Ptr → W
made w v tail = record w {
  shared = record w.shared {
    nodes = update w.shared.nodes w.shared.fresh (some (fresh_node v tail));
    fresh = w.shared.fresh + 1;
  };
}

enqueue-first :
    (w : W) (l : LocalQueue) (v : ℕ)
    → is_null l.tail ≡ true
    → enqueue v l w []
      ≡ ok
          (record l { size = up l.size; tail = w.shared.fresh; head = w.shared.fresh })
          (made w v l.tail)
          []
unfolding enqueue
enqueue-first w l v e = rw e

abbrev linked_in : W → ℕ → Ptr → QNode → W
linked_in w v tail t = record w {
  shared = record w.shared {
    nodes =
        update (update w.shared.nodes w.shared.fresh (some (fresh_node v tail))) tail
          (some (record t { next = w.shared.fresh }));
    fresh = w.shared.fresh + 1;
  };
}

enqueue-more :
    (w : W) (l : LocalQueue) (v : ℕ) {t : QNode}
    → is_null l.tail ≡ false
    → w.shared.nodes l.tail ≡ some t
    → l.tail ≢ w.shared.fresh
    → enqueue v l w []
      ≡ ok (record l { size = up l.size; tail = w.shared.fresh }) (linked_in w v l.tail t) []
unfolding enqueue
enqueue-more w l v {t} live at ne =
    rw (live, update_ne w.shared.nodes w.shared.fresh (some (fresh_node v l.tail)) l.tail ne, at)

fresh-out :
    (f : Ptr) (xs : Items)
    → ((p : Ptr) → has p (addresses xs) ≡ true → p < f)
    → has f (addresses xs) ≡ false
fresh-out f xs below = elim (Bool-cases (has f (addresses xs))) [
  | inl i ↦ let lt = below f i in absurd (omega arith)
  | inr o ↦ o
]

below-snoc :
    (f v : ℕ) (xs : Items)
    → ((p : Ptr) → has p (addresses xs) ≡ true → p < f)
    → (p : Ptr) → has p (addresses (xs ++ ((f, v) ∷ []))) ≡ true
    → p < f + 1
below-snoc f v xs below p i = elim (Bool-cases (p == f)) [
  | inl same ↦ let s = ==→eq p f same in omega arith
  | inr other ↦ let lt = below p (ground (arith, i, other, has-snoc p f v xs)) in omega arith
]

linked_in-extended :
    (h : Nodes) (t f v : ℕ) (n : QNode)
    → h t ≡ some n
    → t ≢ f
    → update (update h f (some (fresh_node v t))) t (some (record n { next = f }))
      ≡ extended h t f v
linked_in-extended h t f v n at ne =
    update_comm h f t (some (fresh_node v t)) (some (record n { next = f })) (λ e. ne (sym e))
    ∙ rw at

-- enqueue puts the value at the end of the local queue.
pub enqueue-snoc :
    (v : ℕ) (w : W) (l : LocalQueue) (xs : Items)
    → LocalHolds w.shared l xs
    → (l' : LocalQueue) × (w' : W) × (enqueue v l w [] ≡ ok l' w' [])
      × LocalHolds w'.shared l' (xs ++ ((w.shared.fresh, v) ∷ []))
enqueue-snoc v w l [] h =
    let f = w.shared.fresh in
    (
      record l { size = up l.size; tail = f; head = f },
      made w v l.tail,
      enqueue-first w l v (eq→== l.tail 0 h.tail),
      record {
        linked = (
          refl,
          ne→== f 0 (λ e. let r = h.room in absurd (omega arith)),
          0,
          update_self w.shared.nodes f (some (fresh_node v l.tail))
              ∙ ap (λ t. some (fresh_node v t)) h.tail,
          refl,
        );
        tail = refl;
        distinct = (refl, tt);
        below = λ p i. ground arith;
        room = omega arith;
        size = let s = h.size in ground arith;
      },
    )
enqueue-snoc v w l ((a, u) ∷ xs) h =
    let f = w.shared.fresh in
    let out = fresh-out f ((a, u) ∷ xs) h.below in
    let (t, at, live) = Linked-last w.shared.nodes 0 l.head a u xs h.linked in
    let tail_at : w.shared.nodes l.tail ≡ some t = ap w.shared.nodes h.tail ∙ at in
    let ne : l.tail ≢ f =
      λ e. has-ne (last a xs) f (addresses ((a, u) ∷ xs)) (last-has a u xs) out (sym h.tail ∙ e) in
    (
      record l { size = up l.size; tail = f },
      linked_in w v l.tail t,
      enqueue-more w l v (ap is_null h.tail ∙ live) tail_at ne,
      record {
        linked =
            subst (λ g. Linked g 0 l.head (((a, u) ∷ xs) ++ ((f, v) ∷ [])))
              (sym (linked_in-extended w.shared.nodes l.tail f v t tail_at ne))
              (subst
                (λ x.
                  Linked (extended w.shared.nodes x f v) 0 l.head (((a, u) ∷ xs) ++ ((f, v) ∷ [])))
                (sym h.tail)
                (Linked-snoc w.shared.nodes 0 l.head a u f v xs h.linked h.distinct out
                  (ne→== f 0 (λ e. let r = h.room in absurd (omega arith)))));
        tail = sym (last-snoc a f v xs);
        distinct = Distinct-snoc f v ((a, u) ∷ xs) h.distinct out;
        below = below-snoc f v ((a, u) ∷ xs) h.below;
        room = omega arith;
        size = let s = h.size in let k = length-snoc ((a, u) ∷ xs) (f, v) in omega arith;
      },
    )

dequeue-last :
    (w : W) (l : LocalQueue) {n : QNode}
    → is_null l.head ≡ false
    → w.shared.nodes l.head ≡ some n
    → n.next ≡ 0
    → dequeue l w [] ≡ ok (n.val, record l { head = 0; size = down l.size; tail = 0 }) w []
unfolding dequeue
dequeue-last w l {n} live at end = rw (live, at, end)

abbrev first_out : W → Ptr → QNode → W
first_out w p n = record w {
  shared = record w.shared { nodes = update w.shared.nodes p (some (record n { prev = 0 })) };
}

dequeue-first :
    (w : W) (l : LocalQueue) {n m : QNode}
    → is_null l.head ≡ false
    → w.shared.nodes l.head ≡ some n
    → is_null n.next ≡ false
    → w.shared.nodes n.next ≡ some m
    → dequeue l w []
      ≡ ok (n.val, record l { head = n.next; size = down l.size }) (first_out w n.next m) []
unfolding dequeue
dequeue-first w l {n} {m} live at live' at' = rw (live, at, live', at')

down-suc : (n : ℕ) → down (suc n % 2 ^ 32) ≡ n % 2 ^ 32
down-suc n = omega arith

-- dequeue answers the first value and takes it out.
pub dequeue-cons :
    (a v : ℕ) (w : W) (l : LocalQueue) (xs : Items)
    → LocalHolds w.shared l ((a, v) ∷ xs)
    → (l' : LocalQueue) × (w' : W) × (dequeue l w [] ≡ ok (v, l') w' [])
      × LocalHolds w'.shared l' xs
dequeue-cons a v w l [] h =
    let (e, live, next, at, end) = h.linked in
    (
      record l { head = 0; size = down l.size; tail = 0 },
      w,
      dequeue-last w l (ap is_null e ∙ live) (ap w.shared.nodes e ∙ at) end,
      record {
        linked = refl;
        tail = refl;
        distinct = tt;
        below = λ p i. cc;
        room = h.room;
        size = ap down h.size ∙ down-suc 0;
      },
    )
dequeue-cons a v w l ((b, u) ∷ ys) h =
    let (e, live, next, at, (e', live', next', at', rest)) = h.linked in
    let m : QNode = record { val = u; prev = a; next = next' } in
    let m' : QNode = record { val = u; prev = 0; next = next' } in
    (
      record l { head = next; size = down l.size },
      first_out w next m,
      dequeue-first w l (ap is_null e ∙ live) (ap w.shared.nodes e ∙ at) (ap is_null e' ∙ live')
          (ap w.shared.nodes e' ∙ at'),
      record {
        linked = (
          e',
          live',
          next',
          subst (λ x. update w.shared.nodes x (some m') b ≡ some m') (sym e')
              (update_self w.shared.nodes b (some m')),
          subst (λ x. Linked (update w.shared.nodes x (some m')) b next' ys) (sym e')
              (Linked-frame w.shared.nodes b next' b (some m') ys h.distinct.1.0 rest),
        );
        tail = h.tail;
        distinct = h.distinct.1;
        below = λ p i. h.below p (ground arith);
        room = h.room;
        size = ap down h.size ∙ down-suc (length ((b, u) ∷ ys));
      },
    )

-- An empty local queue has nothing to give.
pub dequeue-empty :
    (w : W) (l : LocalQueue) → LocalHolds w.shared l [] → dequeue l w [] ≡ throw empty_queue w []
unfolding dequeue
dequeue-empty w l h = if_true _ _ w [] (eq→== l.head 0 h.linked)
