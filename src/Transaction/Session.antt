-- ===== src/Transaction/Session.antt =====
-- TX.h with datatypes/LinkedList.h: the calls of a transaction one after the other, when no other
-- thread acts meanwhile.
use transactional_data_struc.Base.{
  ℕ, ◌+◌, ◌<◌, Option, List, [], ◌∷◌, ◌≡◌, refl, ◌∙◌, arith, length,
}
use transactional_data_struc.Effect.{ok}
use transactional_data_struc.Memory.Solo.{Memory}
use transactional_data_struc.Index.{IndexOps}
use transactional_data_struc.Index.Laws.{IndexLaws}
use transactional_data_struc.Chain.Spec.{Cells, lookup, insert, insert_absent, erase, address}
use transactional_data_struc.LinkedList.{LinkedList}
use transactional_data_struc.LinkedList.Overlay.Get.{get-lookup}
use transactional_data_struc.LinkedList.Overlay.Insert.{own_val, put-insert}
use transactional_data_struc.LinkedList.Overlay.Absent.{put_if_absent-insert_absent}
use transactional_data_struc.LinkedList.Overlay.Remove.{remove-erase}
use transactional_data_struc.Transaction.Program.{
  Call, put_call, put_if_absent_call, remove_call, get_call, perform, perform_all, Map, effect,
  effects, Answer, Answers,
}
use transactional_data_struc.Chain.Meaning.{
  Reads, insert-Reads, erase-Reads, insert_absent-Reads, length-insert, length-insert_absent,
  length-erase,
}
use transactional_data_struc.Transaction.InTx.{InTx, After, put_answer, Becomes-After, Got-After}

module _ (X : IndexOps) (laws : IndexLaws X) (list : LinkedList) where
  -- A call that has run.
  record Step (w : Memory X.State) (bs : Cells) (n fuel : ℕ) (c : Call) (m : Map) : Type 0 where
    answer : Option ℕ
    next : Memory X.State
    run : perform X list fuel c w [] ≡ ok answer next []
    right : Answer c m answer
    after : After X laws list w next bs n (effect c m)

  perform-Step :
      (c : Call) (fuel : ℕ) (w : Memory X.State) (bs es : Cells) (m : Map)
      → InTx X laws list w bs es
      → Reads es m
      → length bs < fuel
      → length es < fuel
      → Step w bs (length es + 1) fuel c m
  unfolding perform effect Answer
  perform-Step (put_call key val) fuel w bs es m t r lt_bs lt =
      let f = w.shared.fresh in
      let asc = t.views.viewed.ascending in
      let (v, run, b) = put-insert X laws list fuel key val w bs es t.running t.views lt_bs lt in
      record {
        answer = own_val w.shared.heap (address key es);
        next = v;
        run = run;
        right = put_answer X laws list w bs es key m t.views r;
        after =
            Becomes-After X laws list w v bs es (insert f key val es) (length es + 1) _ t b
              (insert-Reads f key val es m asc r) (length-insert f key val es);
      }
  perform-Step (put_if_absent_call key val) fuel w bs es m t r lt_bs lt =
      let f = w.shared.fresh in
      let asc = t.views.viewed.ascending in
      let (v, run, b) =
        put_if_absent-insert_absent X laws list fuel key val w bs es t.running t.views lt_bs lt in
      record {
        answer = own_val w.shared.heap (address key es);
        next = v;
        run = run;
        right = put_answer X laws list w bs es key m t.views r;
        after =
            Becomes-After X laws list w v bs es (insert_absent f key val es) (length es + 1) _ t b
              (insert_absent-Reads f key val es m asc r) (length-insert_absent f key val es);
      }
  perform-Step (remove_call key) fuel w bs es m t r lt_bs lt =
      let asc = t.views.viewed.ascending in
      let (v, run, b, _) = remove-erase X laws list fuel key w bs es t.running t.views lt_bs lt in
      record {
        answer = lookup key es;
        next = v;
        run = run;
        right = r key;
        after =
            Becomes-After X laws list w v bs es (erase key es) (length es + 1) _ t b
              (erase-Reads key es m asc r) (omega (arith, length-erase key es));
      }
  perform-Step (get_call key) fuel w bs es m t r lt_bs lt =
      let (v, run, g) = get-lookup X laws list fuel key w bs es t.running t.views lt_bs lt in
      record {
        answer = lookup key es;
        next = v;
        run = run;
        right = r key;
        after = Got-After X laws list w v bs es key (length es + 1) m t g r (omega arith);
      }

  -- A body that has run.
  pub record Body (w : Memory X.State) (bs : Cells) (fuel : ℕ) (cs : List Call) (m : Map)
      : Type 0 where
    pub answers : List (Option ℕ)
    pub next : Memory X.State
    pub cells : Cells
    pub run : perform_all X list fuel cs w [] ≡ ok answers next []
    pub right : Answers cs m answers
    pub in_tx : InTx X laws list next bs cells
    pub meaning : Reads cells (effects cs m)
    pub gvc : next.shared.gvc ≡ w.shared.gvc
    pub retired : next.shared.retired ≡ w.shared.retired

  pub perform_all-Body :
      (cs : List Call) (fuel : ℕ) (w : Memory X.State) (bs es : Cells) (m : Map)
      → InTx X laws list w bs es
      → Reads es m
      → length bs < fuel
      → length es + length cs < fuel
      → Body w bs fuel cs m
  unfolding perform_all effects Answers
  perform_all-Body [] fuel w bs es m t r lt_bs lt = record {
    answers = [];
    next = w;
    cells = es;
    run = refl;
    right = tt;
    in_tx = t;
    meaning = r;
    gvc = refl;
    retired = refl;
  }
  perform_all-Body (c ∷ cs) fuel w bs es m t r lt_bs lt =
      let s = perform-Step c fuel w bs es m t r lt_bs (omega arith) in
      let b =
        perform_all-Body cs fuel s.next bs s.after.cells (effect c m) s.after.in_tx s.after.meaning
          lt_bs (omega (arith, s.after.size)) in
      record {
        answers = s.answer ∷ b.answers;
        next = b.next;
        cells = b.cells;
        run = rw (s.run, b.run);
        right = (s.right, b.right);
        in_tx = b.in_tx;
        meaning = b.meaning;
        gvc = b.gvc ∙ s.after.gvc;
        retired = b.retired ∙ s.after.retired;
      }
