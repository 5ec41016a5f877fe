-- ===== src/LinkedList/Search.antt =====
-- datatypes/LinkedList.h: `find_node_singelton` on a list that no other thread touches meanwhile.
use transactional_data_struc.Base.{
  ℕ, zero, suc, ◌+◌, ◌<◌, Bool, true, false, Option, some, [], ◌∷◌, ◌≡◌, ◌≢◌, refl, sym, ◌∙◌, arith,
  length, ne→==, eq→==, le→ltb, ==_refl, update, subst, has,
}
use native.Mathlib.Decide.{dec_lt}
use transactional_data_struc.Effect.{ok}
use transactional_data_struc.Memory.{Ptr, null, Node}
use transactional_data_struc.Memory.Solo.{Memory}
use transactional_data_struc.Memory.Nodes
use transactional_data_struc.Index.{IndexOps}
use transactional_data_struc.Chain.Spec.{Cells, addresses}
use transactional_data_struc.Chain.Shape.{
  From, last, more, At, at_end, at_hit, at_gap, at_skip, From-head, From-Leads, At-Leads,
  length-Leads,
}
use transactional_data_struc.Chain.Quiet.{IsQuiet, quiet-word}
use transactional_data_struc.Chain.Sorted.{IsSorted}
use transactional_data_struc.Index.Laws.{IndexLaws}
use transactional_data_struc.LinkedList.{LinkedList}
use transactional_data_struc.LinkedList.Find.{
  Found, walk, skip_gone, get_pred_singleton, find_node_singleton,
}

-- One round of the inner loop, from `p` to the node `q` behind it.
module _ {I : Type 0} (fuel key : ℕ) (w : Memory I) (p q : Ptr) {n m : Node}
    (at_p : w.shared.heap p ≡ some n) (next : n.next ≡ q) (at_q : w.shared.heap q ≡ some m)
    (ne : q ≢ null) (quiet : IsQuiet m) where
  walk-hit : m.key ≡ key → walk (suc fuel) key p q w [] ≡ ok (some (true, p, q)) w []
  unfolding walk Nodes.is_locked_or_deleted
  walk-hit hit = ground (arith, quiet-word m.word quiet.free quiet.live)

  walk-gap : key < m.key → walk (suc fuel) key p q w [] ≡ ok (some (false, p, q)) w []
  unfolding walk Nodes.is_locked_or_deleted
  walk-gap gap = ground (arith, quiet-word m.word quiet.free quiet.live)

  walk-skip : m.key < key → walk (suc fuel) key p q w [] ≡ walk fuel key q m.next w []
  unfolding walk Nodes.is_locked_or_deleted Nodes.is_locked
  walk-skip skip =
      let calm = quiet-word m.word quiet.free quiet.live in
      rw (
        ne→== q null ne,
        at_q,
        calm,
        at_q,
        ne→== m.key key (omega arith),
        le→ltb key m.key (omega arith),
        at_q,
        quiet.free,
        at_p,
        next,
        ==_refl q,
        at_p,
        next,
        ne→== q null ne,
        at_q,
        at_q,
        calm,
      )

module _ {I : Type 0} where
  walk-end :
      (fuel key : ℕ) (w : Memory I) (p q : Ptr)
      → q ≡ null
      → walk (suc fuel) key p q w [] ≡ ok (some (false, p, null)) w []
  unfolding walk
  walk-end fuel key w p q e = rw (eq→== q null e)

  walk-At :
      (fuel key : ℕ) (w : Memory I) {p : Ptr} {n : Node} {es : Cells} (q : Ptr)
      → From IsQuiet w.shared.heap p n es
      → n.next ≡ q
      → length es < fuel
      → (b : Bool) × (s : Ptr) × (t : Ptr) × (walk fuel key p q w [] ≡ ok (some (b, s, t)) w [])
        × At key p es b s t
  walk-At zero key w q f e lt = absurd (omega arith)
  walk-At (suc fuel) key w {p} q (last at good end) e lt =
      (false, p, null, walk-end fuel key w p q (sym e ∙ end), at_end)
  walk-At (suc fuel) key w {p} q (more {q = r} {k} {n} {m} at good next ne k_ v_ f) e lt =
      let same : r ≡ q = sym next ∙ e in
      let (at_r, quiet) = From-head f in
      let from_r = λ (c : Option Found) (e : walk (suc fuel) key p r w [] ≡ ok c w []).
        subst (λ x. walk (suc fuel) key p x w [] ≡ ok c w []) same e in
      elim (dec_lt key k) [
        | yes gap ↦ (
          false,
          p,
          r,
          from_r _ (walk-gap fuel key w p r at next at_r ne quiet (omega arith)),
          at_gap gap,
        )
        | no lt1 ↦ elim (dec_lt k key) [
          | yes skip ↦
              let (b, s, t, run, a) = walk-At fuel key w m.next f refl (omega arith) in
              (
                b,
                s,
                t,
                from_r _ (walk-skip fuel key w p r at next at_r ne quiet (omega arith) ∙ run),
                at_skip skip a,
              )
          | no lt2 ↦ (
            true,
            p,
            r,
            from_r _ (walk-hit fuel key w p r at next at_r ne quiet (omega arith)),
            at_hit (omega arith),
          )
        ]
      ]

module _ (X : IndexOps) (laws : IndexLaws X) (list : LinkedList) where
  abbrev pub with_index : Memory X.State → X.State → Memory X.State
  with_index w i = record w {
    shared = record w.shared { index = update w.shared.index list.self i };
  }

  skip_gone-live :
      (fuel : ℕ) (w : Memory X.State) {p : Ptr} {n : Node}
      → w.shared.heap p ≡ some n
      → IsQuiet n
      → skip_gone X list (suc fuel) p w [] ≡ ok p w []
  unfolding skip_gone Nodes.is_locked_or_deleted
  skip_gone-live fuel w at quiet = rw (at, quiet-word _ quiet.free quiet.live)

  -- The memory holds the sorted list `es`, and the index knows it.
  pub record Holds (w : Memory X.State) (es : Cells) : Type 0 where
    pub sorted : IsSorted IsQuiet w.shared.heap list.head es
    pub indexed : laws.Valid w.shared.heap list.head es (w.shared.index list.self)
    pub below : (p : Ptr) → has p (list.head ∷ addresses es) ≡ true → p < w.shared.fresh

  -- A search ends at the place of the key, and changes no more than the index.
  pub record Finds (w : Memory X.State) (es : Cells) (key : ℕ) (i : X.State) (b : Bool) (s t : Ptr)
      : Type 0 where
    pub place : At key list.head es b s t
    pub indexed : laws.Valid w.shared.heap list.head es i

  pub find_node_singleton-Finds :
      (fuel key : ℕ) (w : Memory X.State) (es : Cells)
      → Holds w es
      → length es + 2 < fuel
      → (b : Bool) × (s : Ptr) × (t : Ptr) × (i : X.State) × (find_node_singleton X list fuel key w
            []
          ≡ ok (b, s, t) (with_index w i) [])
        × Finds w es key i b s t
  unfolding find_node_singleton get_pred_singleton Nodes.is_locked Nodes.is_locked_or_deleted
  find_node_singleton-Finds zero key w es holds lt = absurd (omega arith)
  find_node_singleton-Finds (suc zero) key w es holds lt = absurd (omega arith)
  find_node_singleton-Finds (suc (suc fuel)) key w es holds lt =
      let (p, i, ds, got, leads, valid) =
        laws.finds key w.shared.heap list.head es _ holds.sorted holds.indexed in
      let (n, f) = From-Leads leads holds.sorted.from in
      let (at, quiet) = From-head f in
      let w1 = with_index w i in
      let (b, s, t, run, a) =
        walk-At (suc fuel) key w1 n.next f refl (omega (arith, length-Leads leads)) in
      (
        b,
        s,
        t,
        i,
        rw (
          got,
          skip_gone-live fuel w1 at quiet,
          at,
          quiet.free,
          at,
          at,
          quiet-word n.word quiet.free quiet.live,
          run,
        ),
        record { place = At-Leads leads a; indexed = valid },
      )
