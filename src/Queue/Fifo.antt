-- ===== src/Queue/Fifo.antt =====
-- datatypes/Queue.h: the singleton operations are those of a first-in first-out sequence, when no
-- other thread acts meanwhile.
use transactional_data_struc.Base.{
  ℕ, suc, ◌+◌, ◌<◌, true, false, ◌||◌, some, [], ◌∷◌, ◌++◌, ◌≡◌, refl, sym, ap, ◌∙◌, subst, ◌==◌,
  has, has-ne, update, update_self, update_ne, arith, ==_refl, Bool-cases, inl, inr, eq→==, ne→==,
  ==→ne, ==→eq,
}
use transactional_data_struc.Effect.{World, ok, ◌>>◌, if_false}
use transactional_data_struc.Queue.{QNode, Queue, QueueOp, Thread, Ptr, is_null, up, store, write}
use transactional_data_struc.Queue.Word.{
  is_held, is_single, held, released, with_version, with_singleton, version_of, version_bits,
  try_lock, unlock, set_version, set_singleton,
}
use transactional_data_struc.Queue.Singleton.{release, append, enqueue_singleton}
use transactional_data_struc.Queue.Chain.{
  Items, addresses, last, last-has, Linked, Holds, Linked-snoc, Linked-last, extended,
  extended-made, length-snoc, has-snoc, Distinct-snoc, last-snoc,
}

abbrev pub W : Type 0
W = World Queue Thread

abbrev pub with_word : W → ℕ → W
with_word w l = record w { shared = record w.shared { word = l } }

-- The word that an operation leaves.
abbrev pub stamped : ℕ → ℕ → ℕ
stamped version l = released (with_singleton true (with_version version l))

pub held-is_held : (l : ℕ) → is_held (held l) ≡ true
unfolding is_held held
held-is_held l = ground arith

with_version-is_held : (v l : ℕ) → is_held l ≡ true → is_held (with_version v l) ≡ true
unfolding is_held with_version
with_version-is_held v l h = ground arith

with_singleton-is_held : (l : ℕ) → is_held l ≡ true → is_held (with_singleton true l) ≡ true
unfolding is_held with_singleton
with_singleton-is_held l h = ground arith

pub stamped-free : (v l : ℕ) → is_held l ≡ true → is_held (stamped v l) ≡ false
unfolding is_held with_singleton with_version released
stamped-free v l h = ground arith

pub try_lock-run :
    (w : W)
    → is_held w.shared.word ≡ false
    → try_lock w [] ≡ ok true (with_word w (held w.shared.word)) []
unfolding try_lock
try_lock-run w free = rw (free, ==_refl)

pub release-run :
    (w : W)
    → is_held w.shared.word ≡ true
    → release w [] ≡ ok tt (with_word w (stamped w.shared.gvc w.shared.word)) []
unfolding release set_version set_singleton unlock
release-run w h =
    let h' = with_version-is_held w.shared.gvc w.shared.word h in
    rw (h, h', with_singleton-is_held _ h', ==_refl)

-- `v` is `w` with the items `xs`, and the lock's word tells that a singleton operation has been
-- here at the version of the clock.
pub record Changed (w v : W) (xs : Items) : Type 0 where
  pub holds : Holds v.shared xs
  pub version : version_of v.shared.word ≡ version_bits w.shared.gvc
  pub single : is_single v.shared.word ≡ true
  pub gvc : v.shared.gvc ≡ w.shared.gvc
  pub local : v.local ≡ w.local

pub stamped-version : (v l : ℕ) → version_of (stamped v l) ≡ version_bits v
unfolding version_of with_singleton with_version released
stamped-version v l = ground arith

pub stamped-single : (v l : ℕ) → is_single (stamped v l) ≡ true
unfolding is_single with_singleton with_version released
stamped-single v l = ground arith

-- The queue after `append`, where it was empty and where it was not.
abbrev first_in : W → Ptr → ℕ → W
first_in w f v = record w {
  shared = record w.shared { tail = f; head = f; size = up w.shared.size };
}

append-first :
    (w : W) (f v : ℕ) → is_null w.shared.tail ≡ true → append f w [] ≡ ok tt (first_in w f v) []
unfolding append
append-first w f v e = ground arith

abbrev linked_in : W → Ptr → QNode → QNode → W
linked_in w f n t = record w {
  shared = record w.shared {
    nodes =
        update (update w.shared.nodes w.shared.tail (some (record t { next = f }))) f
          (some (record n { prev = w.shared.tail }));
    tail = f;
    size = up w.shared.size;
  };
}

abbrev link_after : Ptr → Ptr → QueueOp (Unit {0})
link_after tail f = do
  store tail λ n. record n { next = f }
  store f λ n. record n { prev = tail }
  write λ q. record q { tail = f }

append-more :
    (w : W) (f : Ptr) {n t : QNode}
    → is_null w.shared.tail ≡ false
    → w.shared.nodes w.shared.tail ≡ some t
    → w.shared.nodes f ≡ some n
    → (f == w.shared.tail) ≡ false
    → append f w [] ≡ ok tt (linked_in w f n t) []
unfolding append update
append-more w f {n} {t} e at new apart =
    let none_there =
      if_false (do write (λ q. record q { tail = f }); write λ q. record q { head = f })
        (link_after w.shared.tail f) w [] e in
    rw none_there (rw (at, apart, new))

-- The queue with a node made for a value.
abbrev pub made : W → ℕ → W
made w v = record w {
  shared = record w.shared {
    nodes = update w.shared.nodes w.shared.fresh (some (record { val = v; prev = 0; next = 0 }));
    fresh = w.shared.fresh + 1;
  };
}

-- An enqueue, given what `append` does with the lock.
enqueue_singleton-run :
    (fuel v : ℕ) (w w' : W)
    → is_held w.shared.word ≡ false
    → append w.shared.fresh (with_word (made w v) (held w.shared.word)) [] ≡ ok tt w' []
    → is_held w'.shared.word ≡ true
    → enqueue_singleton (suc fuel) v w []
      ≡ ok tt (with_word w' (stamped w'.shared.gvc w'.shared.word)) []
unfolding enqueue_singleton
enqueue_singleton-run fuel v w w' free run shut =
    rw (try_lock-run (made w v) free, run, release-run w' shut)

fresh-out : (q : Queue) (xs : Items) → Holds q xs → has q.fresh (addresses xs) ≡ false
fresh-out q xs holds = elim (Bool-cases (has q.fresh (addresses xs))) [
  | inl i ↦ let lt = holds.below q.fresh i in ground arith
  | inr o ↦ o
]

-- On a free queue that holds a sequence, enqueueSingleton puts the value at the end, marks the
-- queue as written by a singleton at the version of the clock and leaves it free. No other
-- thread acts meanwhile.
pub enqueue_singleton-snoc :
    (fuel v : ℕ) (w : W) (xs : Items)
    → Holds w.shared xs
    → (w' : W) × (enqueue_singleton (suc fuel) v w [] ≡ ok tt w' [])
      × Changed w w' (xs ++ ((w.shared.fresh, v) ∷ []))
enqueue_singleton-snoc fuel v w [] holds =
    let f = w.shared.fresh in
    let l = held w.shared.word in
    let w2 = with_word (made w v) l in
    let shut = held-is_held w.shared.word in
    let w3 = first_in w2 f v in
    let gone : is_null w.shared.tail ≡ true = eq→== w.shared.tail 0 holds.tail in
    (
      with_word w3 (stamped w.shared.gvc l),
      enqueue_singleton-run fuel v w w3 holds.free (append-first w2 f v gone) shut,
      record {
        holds = record {
          linked = (
            refl,
            ne→== f 0 (λ e. let r = holds.room in omega arith),
            0,
            update_self w.shared.nodes f (some (record { val = v; prev = 0; next = 0 })),
            refl,
          );
          tail = refl;
          distinct = (refl, tt);
          below = λ p i. ground arith;
          room = omega arith;
          size = let s = holds.size in ground arith;
          free = stamped-free w.shared.gvc l shut;
        };
        version = stamped-version w.shared.gvc l;
        single = stamped-single w.shared.gvc l;
        gvc = refl;
        local = refl;
      },
    )
enqueue_singleton-snoc fuel v w ((a, u) ∷ xs) holds =
    let f = w.shared.fresh in
    let l = held w.shared.word in
    let w2 = with_word (made w v) l in
    let shut = held-is_held w.shared.word in
    let out = fresh-out w.shared ((a, u) ∷ xs) holds in
    let there = last-has a u xs in
    let (t, at, live) = Linked-last w.shared.nodes 0 w.shared.head a u xs holds.linked in
    let n : QNode = record { val = v; prev = 0; next = 0 } in
    let tail_at : w.shared.nodes w.shared.tail ≡ some t = ap w.shared.nodes holds.tail ∙ at in
    let tail_live : is_null w.shared.tail ≡ false = ap is_null holds.tail ∙ live in
    let apart : (w.shared.tail == f) ≡ false =
      ne→== w.shared.tail f
        (λ e. has-ne (last a xs) f (addresses ((a, u) ∷ xs)) there out (sym holds.tail ∙ e)) in
    let w3 = linked_in w2 f n t in
    (
      with_word w3 (stamped w.shared.gvc l),
      enqueue_singleton-run fuel v w w3 holds.free
          (append-more w2 f tail_live
            (update_ne w.shared.nodes f (some n) w.shared.tail (==→ne w.shared.tail f apart)
              ∙ tail_at)
            (update_self w.shared.nodes f (some n))
            (ne→== f w.shared.tail (λ e. ==→ne w.shared.tail f apart (sym e))))
          shut,
      record {
        holds = record {
          linked =
              subst (λ h. Linked h 0 w.shared.head (((a, u) ∷ xs) ++ ((f, v) ∷ [])))
                (sym (extended-made w.shared.nodes w.shared.tail f v t tail_at apart))
                (subst
                  (λ x.
                    Linked (extended w.shared.nodes x f v) 0 w.shared.head
                      (((a, u) ∷ xs) ++ ((f, v) ∷ [])))
                  (sym holds.tail)
                  (Linked-snoc w.shared.nodes 0 w.shared.head a u f v xs holds.linked holds.distinct
                    out (ne→== f 0 (λ e. let r = holds.room in omega arith))));
          tail = sym (last-snoc a f v xs);
          distinct = Distinct-snoc f v ((a, u) ∷ xs) holds.distinct out;
          below = λ p i. below_next p (has-snoc p f v ((a, u) ∷ xs)) i;
          room = omega arith;
          size = let s = holds.size in let k = length-snoc ((a, u) ∷ xs) (f, v) in omega arith;
          free = stamped-free w.shared.gvc l shut;
        };
        version = stamped-version w.shared.gvc l;
        single = stamped-single w.shared.gvc l;
        gvc = refl;
        local = refl;
      },
    )
  where
    below_next :
        (p : Ptr)
        → has p (addresses (((a, u) ∷ xs) ++ ((w.shared.fresh, v) ∷ [])))
          ≡ (has p (addresses ((a, u) ∷ xs)) || (p == w.shared.fresh))
        → has p (addresses (((a, u) ∷ xs) ++ ((w.shared.fresh, v) ∷ []))) ≡ true
        → p < w.shared.fresh + 1
    below_next p e i = elim (Bool-cases (p == w.shared.fresh)) [
      | inl same ↦ let s = ==→eq p w.shared.fresh same in omega arith
      | inr other ↦ let lt = holds.below p (ground arith) in omega arith
    ]
