-- ===== src/Queue/Dequeue.antt =====
-- datatypes/Queue.h: `dequeueSingleton`, when no other thread acts meanwhile.
use transactional_data_struc.Base.{
  ℕ, suc, ◌%◌, ◌^◌, true, false, none, some, [], ◌∷◌, ◌≡◌, refl, sym, ap, ◌∙◌, subst, update,
  update_self, length, arith, eq→==, ==_refl,
}
use transactional_data_struc.Effect.{ok, throw, raise, empty_queue, if_true, if_false, ◌>>◌}
use transactional_data_struc.Queue.{QNode, Ptr, is_null, down}
use transactional_data_struc.Queue.Word.{is_held, held, released, unlock}
use transactional_data_struc.Queue.Singleton.{detach, dequeue_singleton}
use transactional_data_struc.Queue.Chain.{Items, Linked, Holds, Linked-frame}
use transactional_data_struc.Queue.Fifo.{
  W, with_word, stamped, Changed, held-is_held, stamped-free, stamped-version, stamped-single,
  try_lock-run, release-run,
}

down-suc : (n : ℕ) → down (suc n % 2 ^ 32) ≡ n % 2 ^ 32
down-suc n = omega arith

abbrev take_last : W → W
take_last w = record w {
  shared = record w.shared { head = 0; tail = 0; size = down w.shared.size };
}

abbrev take_first : W → Ptr → QNode → W
take_first w p n = record w {
  shared = record w.shared {
    nodes = update w.shared.nodes p (some (record n { prev = 0 }));
    head = p;
    size = down w.shared.size;
  };
}

detach-last :
    (w : W) {n : QNode}
    → w.shared.nodes w.shared.head ≡ some n
    → n.next ≡ 0
    → detach w.shared.head w [] ≡ ok n.val (take_last w) []
unfolding detach
detach-last w {n} at e = rw (at, e)

detach-first :
    (w : W) {n m : QNode}
    → w.shared.nodes w.shared.head ≡ some n
    → is_null n.next ≡ false
    → w.shared.nodes n.next ≡ some m
    → detach w.shared.head w [] ≡ ok n.val (take_first w n.next m) []
unfolding detach
detach-first w {n} {m} at live at' = rw (at, live, at')

dequeue_singleton-run :
    (fuel : ℕ) {v : ℕ} (w w' : W)
    → is_held w.shared.word ≡ false
    → is_null w.shared.head ≡ false
    → detach w.shared.head (with_word w (held w.shared.word)) [] ≡ ok v w' []
    → is_held w'.shared.word ≡ true
    → dequeue_singleton (suc fuel) w []
      ≡ ok none (with_word w' (stamped w'.shared.gvc w'.shared.word)) []
unfolding dequeue_singleton
dequeue_singleton-run fuel {v} w w' free live run shut = rw (try_lock-run w free) (
    if_false (do unlock; raise empty_queue) _ (with_word w (held w.shared.word)) [] live
    ∙ rw (run, release-run w' shut))

released-held : (l : ℕ) → is_held l ≡ false → released (held l) ≡ l
unfolding is_held held released
released-held l free = ground arith

unlock-run :
    (w : W)
    → is_held w.shared.word ≡ true
    → unlock w [] ≡ ok tt (with_word w (released w.shared.word)) []
unfolding unlock
unlock-run w h = rw (h, ==_refl)

-- On a free and empty queue dequeueSingleton throws EmptyQueueException and changes nothing. No
-- other thread acts meanwhile.
pub dequeue_singleton-empty :
    (fuel : ℕ) (w : W)
    → Holds w.shared []
    → dequeue_singleton (suc fuel) w [] ≡ throw empty_queue w []
unfolding dequeue_singleton
dequeue_singleton-empty fuel w holds =
    let l = held w.shared.word in
    rw (try_lock-run w holds.free) (
      if_true _ _ (with_word w l) [] (eq→== w.shared.head 0 holds.linked)
      ∙ rw (
        unlock-run (with_word w l) (held-is_held w.shared.word),
        released-held w.shared.word holds.free,
      ))

-- On a free queue that holds a sequence with a first value, dequeueSingleton takes it out and
-- returns without a value, marks the queue as written by a singleton at the version of the clock
-- and leaves it free. No other thread acts meanwhile.
pub dequeue_singleton-cons :
    (fuel a v : ℕ) (w : W) (xs : Items)
    → Holds w.shared ((a, v) ∷ xs)
    → (w' : W) × (dequeue_singleton (suc fuel) w [] ≡ ok none w' []) × Changed w w' xs
dequeue_singleton-cons fuel a v w [] holds =
    let l = held w.shared.word in
    let shut = held-is_held w.shared.word in
    let (e, live, next, at, end) = holds.linked in
    let w' = take_last (with_word w l) in
    (
      with_word w' (stamped w.shared.gvc l),
      dequeue_singleton-run fuel w w' holds.free (ap is_null e ∙ live)
          (detach-last (with_word w l) (ap w.shared.nodes e ∙ at) end) shut,
      record {
        holds = record {
          linked = refl;
          tail = refl;
          distinct = tt;
          below = λ p i. cc;
          room = holds.room;
          size = ap down holds.size ∙ down-suc 0;
          free = stamped-free w.shared.gvc l shut;
        };
        version = stamped-version w.shared.gvc l;
        single = stamped-single w.shared.gvc l;
        gvc = refl;
        local = refl;
      },
    )
dequeue_singleton-cons fuel a v w ((b, u) ∷ ys) holds =
    let l = held w.shared.word in
    let shut = held-is_held w.shared.word in
    let (e, live, next, at, (e', live', next', at', rest)) = holds.linked in
    let m : QNode = record { val = u; prev = a; next = next' } in
    let w' = take_first (with_word w l) next m in
    (
      with_word w' (stamped w.shared.gvc l),
      dequeue_singleton-run fuel w w' holds.free (ap is_null e ∙ live)
          (detach-first (with_word w l) (ap w.shared.nodes e ∙ at) (ap is_null e' ∙ live')
            (ap w.shared.nodes e' ∙ at'))
          shut,
      record {
        holds = record {
          linked = (
            e',
            live',
            next',
            subst
                (λ x.
                  update w.shared.nodes x (some (record m { prev = 0 })) b
                  ≡ some (record m { prev = 0 }))
                (sym e') (update_self w.shared.nodes b (some (record m { prev = 0 }))),
            subst (λ x. Linked (update w.shared.nodes x (some (record m { prev = 0 }))) b next' ys)
                (sym e')
                (Linked-frame w.shared.nodes b next' b (some (record m { prev = 0 })) ys
                  holds.distinct.1.0 rest),
          );
          tail = holds.tail;
          distinct = holds.distinct.1;
          below = λ p i. holds.below p (ground arith);
          room = holds.room;
          size = ap down holds.size ∙ down-suc (length ((b, u) ∷ ys));
          free = stamped-free w.shared.gvc l shut;
        };
        version = stamped-version w.shared.gvc l;
        single = stamped-single w.shared.gvc l;
        gvc = refl;
        local = refl;
      },
    )
