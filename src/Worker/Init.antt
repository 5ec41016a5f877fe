-- ===== src/Worker/Init.antt =====
-- main.cpp: `init_linked_list`, when no other thread acts meanwhile.
use transactional_data_struc.Base.{
  ℕ, ◌+◌, ◌<◌, true, false, Option, List, [], ◌∷◌, ◌≡◌, refl, sym, ◌∙◌, arith, ap, length, is_some,
  Bool-cases, inl, inr,
}
use transactional_data_struc.Effect.{ok}
use transactional_data_struc.Memory.{get_version}
use transactional_data_struc.Memory.Solo.{Memory}
use transactional_data_struc.Index.{IndexOps}
use transactional_data_struc.Index.Laws.{IndexLaws}
use transactional_data_struc.Chain.Spec.{Cells, lookup, insert}
use transactional_data_struc.Chain.Meaning.{Reads, insert-Reads, length-insert_exact}
use transactional_data_struc.LinkedList.{LinkedList}
use transactional_data_struc.LinkedList.Tx.{put}
use transactional_data_struc.Transaction.{tx_begin}
use transactional_data_struc.Transaction.IndexUpdate.{IsTotal}
use transactional_data_struc.Transaction.Program.{Call, put_call, Map, effect, effects}
use transactional_data_struc.Transaction.InTx.{InTx, put-Placed}
use transactional_data_struc.Transaction.Atomic.{CanBegin, begun, begun-InTx, Outcome, end-Outcome}
use transactional_data_struc.Worker.{Task, int, put_all, init_linked_list}

-- The calls that the loop makes.
abbrev pub puts : List Task → List Call
puts [] = []
puts (task ∷ tasks) = put_call task.key task.val ∷ puts tasks

shift : (d e : ℕ) → d + 1 + e ≡ d + (e + 1)
shift d e = omega arith

add_zero : (d : ℕ) → d + 0 ≡ d
add_zero d = omega arith

zero_add : (d : ℕ) → 0 + d ≡ d
zero_add d = omega arith

int-suc : (d : ℕ) → int (int d + 1) ≡ int (d + 1)
int-suc d = omega arith

module _ (X : IndexOps) (list : LinkedList) (fuel : ℕ) (task : Task) (tasks : List Task)
    (w v : Memory X.State) {a : Option ℕ}
    (run : put X list fuel task.key task.val w [] ≡ ok a v []) where
  put_all-old :
      (size : ℕ)
      → is_some a ≡ true
      → put_all X list fuel (task ∷ tasks) size w [] ≡ put_all X list fuel tasks size v []
  unfolding put_all
  put_all-old size old = rw (run, old)

  put_all-new :
      (d : ℕ)
      → is_some a ≡ false
      → put_all X list fuel (task ∷ tasks) (int d) w []
        ≡ put_all X list fuel tasks (int (d + 1)) v []
  unfolding put_all
  put_all-new d new = rw (run, new, int-suc)

module _ (X : IndexOps) (laws : IndexLaws X) (total : IsTotal X) (list : LinkedList) where
  record Filled (w : Memory X.State) (bs es : Cells) (m : Map) (d fuel : ℕ) (tasks : List Task)
      : Type 0 where
    next : Memory X.State
    cells : Cells
    new : ℕ
    run : put_all X list fuel tasks (int d) w [] ≡ ok (int (d + new)) next []
    in_tx : InTx X laws list next bs cells
    meaning : Reads cells (effects (puts tasks) m)
    grown : length cells ≡ length es + new
    gvc : next.shared.gvc ≡ w.shared.gvc

  put_all-Filled :
      (tasks : List Task) (fuel d : ℕ) (w : Memory X.State) (bs es : Cells) (m : Map)
      → InTx X laws list w bs es
      → Reads es m
      → length bs < fuel
      → length es + length tasks < fuel
      → Filled w bs es m d fuel tasks
  unfolding put_all effects effect
  put_all-Filled [] fuel d w bs es m t r lt_bs lt = record {
    next = w;
    cells = es;
    new = 0;
    run = ap (λ n. ok (int n) w []) (sym (add_zero d));
    in_tx = t;
    meaning = r;
    grown = omega arith;
    gvc = refl;
  }
  put_all-Filled (task ∷ tasks) fuel d w bs es m t r lt_bs lt =
      let (a, v, run, p) =
        put-Placed X laws list fuel task.key task.val w bs es t lt_bs (omega arith) in
      let f = w.shared.fresh in
      let cs = insert f task.key task.val es in
      let asc = t.views.viewed.ascending in
      let size = length-insert_exact f task.key task.val 0 es asc in
      elim (Bool-cases (is_some (lookup task.key es))) [
        | inl old ↦
            let same : length cs ≡ length es = size ∙ rw old in
            let rest =
              put_all-Filled tasks fuel d v bs cs _ p.in_tx
                (insert-Reads f task.key task.val es m asc r) lt_bs (omega arith) in
            record {
              next = rest.next;
              cells = rest.cells;
              new = rest.new;
              run = put_all-old X list fuel task tasks w v run (int d) (p.answer ∙ old) ∙ rest.run;
              in_tx = rest.in_tx;
              meaning = rest.meaning;
              grown = omega (arith, rest.grown, same);
              gvc = rest.gvc ∙ p.gvc;
            }
        | inr new ↦
            let more : length cs ≡ length es + 1 = size ∙ rw new in
            let rest =
              put_all-Filled tasks fuel (d + 1) v bs cs _ p.in_tx
                (insert-Reads f task.key task.val es m asc r) lt_bs (omega arith) in
            record {
              next = rest.next;
              cells = rest.cells;
              new = rest.new + 1;
              run =
                  put_all-new X list fuel task tasks w v run d (p.answer ∙ new)
                  ∙ rest.run
                  ∙ ap (λ n. ok (int n) rest.next []) (shift d rest.new);
              in_tx = rest.in_tx;
              meaning = rest.meaning;
              grown = omega (arith, rest.grown, more);
              gvc = rest.gvc ∙ p.gvc;
            }
      ]

  -- On a sorted list that may be read, begun with an empty local storage and the clock below 2 ^
  -- 60, with an index that satisfies its laws and enough fuel, init_linked_list puts its tasks
  -- into the list in one transaction that commits, and answers by how many bindings the list has
  -- grown, modulo 2 ^ 32. No other thread acts meanwhile and the index is total.
  pub init_linked_list-grown :
      (tasks : List Task) (fuel : ℕ) (w : Memory X.State) (es : Cells)
      → CanBegin X laws total list w es
      → length es + length tasks < fuel
      → (new : ℕ) × (v : Memory X.State) × (init_linked_list X list fuel tasks w []
          ≡ ok (int new) v [])
        × (o : Outcome X laws total list v (puts tasks) es) × (length o.cells ≡ length es + new)
  unfolding init_linked_list tx_begin get_version
  init_linked_list-grown tasks fuel w es can lt =
      let w1 = begun X laws total list w in
      let b =
        put_all-Filled tasks fuel 0 w1 es es (λ k. lookup k es)
          (begun-InTx X laws total list w es can) (λ k. refl) (omega arith) lt in
      let (v, run, outcome, same) =
        end-Outcome X laws total list b.next es b.cells (puts tasks) es b.in_tx b.meaning
          (omega (arith, can.room, b.gvc)) in
      (b.new, v, rw (b.run, zero_add, run), outcome, ap length same ∙ b.grown)
