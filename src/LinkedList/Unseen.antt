-- ===== src/LinkedList/Unseen.antt =====
-- TX.h, datatypes/LinkedList.h: what the validation of a transaction sees of an insertion by
-- `putSingleton`, when no other thread acts meanwhile.
use transactional_data_struc.Base.{
  ℕ, ◌+◌, ◌<◌, ◌≡◌, refl, ◌∙◌, ap, subst, false, none, some, List, [], has, has-ne, length, Option,
  inl, inr,
}
use transactional_data_struc.Effect.{ok}
use transactional_data_struc.Memory.{Ptr, Node}
use transactional_data_struc.Memory.Solo.{Memory}
use transactional_data_struc.Node.Word
use transactional_data_struc.Index.{IndexOps}
use transactional_data_struc.Index.Laws.{IndexLaws}
use transactional_data_struc.Chain.Spec.{Cells, lookup}
use transactional_data_struc.LinkedList.{LinkedList}
use transactional_data_struc.LinkedList.Singleton.{put_singleton}
use transactional_data_struc.LinkedList.Search.{Holds}
use transactional_data_struc.LinkedList.Words.{word_of}
use transactional_data_struc.LinkedList.Refine.{put_singleton-insert}
use transactional_data_struc.Transaction.Validate.{AllPass, Passes, IsCurrent}

node_of : (o : Option Node) {l : ℕ} → word_of o ≡ some l → (n : Node) × (o ≡ some n) × (l ≡ n.word)
node_of none e = cc
node_of (some n) e = (n, refl, cc)

Passes-word :
    {v : ℕ} {locked : List Ptr} {p : Ptr} (n m : Node)
    → n.word ≡ m.word
    → Passes v locked p n
    → Passes v locked p m
Passes-word {v} n m e good = record {
  not_taken = elim good.not_taken [
    | inl mine ↦ inl mine
    | inr free ↦ inr (subst (λ l. Word.is_locked l ≡ false) e free)
  ];
  current = subst (IsCurrent v) e good.current;
}

module _ (X : IndexOps) (laws : IndexLaws X) (list : LinkedList) where
  -- A read set that passes, and does not have the address of the next new node, still passes
  -- after putSingleton has inserted a key that was not there, wherever its place is. The memory
  -- holds a sorted list, the index satisfies its laws, the fuel is enough, and no other thread
  -- acts meanwhile.
  pub put_singleton-AllPass :
      (fuel key val : ℕ) (w : Memory X.State) (es : Cells) (version : ℕ) (locked rs : List Ptr)
      → Holds X laws list w es
      → length es + 3 < fuel
      → lookup key es ≡ none
      → has w.shared.fresh rs ≡ false
      → AllPass version locked w.shared.heap rs
      → (v : Memory X.State) × (put_singleton X list fuel key val w [] ≡ ok none v [])
        × AllPass version locked v.shared.heap rs
  put_singleton-AllPass fuel key val w es version locked rs holds lt absent out all =
      let (v, run, stored) = put_singleton-insert X laws list fuel key val w es holds lt in
      (
        v,
        run ∙ ap (λ x. ok x v []) absent,
        λ p i.
            let (n, at, good) = all p i in
            let same = stored.words absent p (has-ne p w.shared.fresh rs i out) in
            let (m, at_m, e) = node_of (v.shared.heap p) (same ∙ ap word_of at) in
            (m, at_m, Passes-word n m e good),
      )
