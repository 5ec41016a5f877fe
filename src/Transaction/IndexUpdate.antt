-- ===== src/Transaction/IndexUpdate.antt =====
-- TX.h: the part of `TXend` that tells the indexes which nodes have come and gone.
use transactional_data_struc.Base.{
  ℕ, ◌≡◌, refl, sym, ◌∙◌, ap, subst, some, List, [], update, ◌∷◌, ◌++◌,
}
use mathlib.Core.List.{append-nil, append_assoc}
use transactional_data_struc.Effect.{ok, ◌>>◌}
use transactional_data_struc.Memory.{Ptr, Heap, Op, retire_node}
use transactional_data_struc.Memory.Solo.{Memory}
use transactional_data_struc.Index.{IndexOps}
use transactional_data_struc.LinkedList.{index_add, index_remove}
use transactional_data_struc.Transaction.{for_each, add_all, remove_all, update_index}

-- What the calls of an index must do: return.
pub record IsTotal (X : IndexOps) : Type 0 where
  pub add : (p : Ptr) (h : Heap) (i : X.State) → (i' : X.State) × (X.add p h i ≡ some i')
  pub remove : (p : Ptr) (h : Heap) (i : X.State) → (i' : X.State) × (X.remove p h i ≡ some i')

-- `v` is `w` but for the indexes, and the nodes `ps` have been retired.
pub record Indexed {I : Type 0} (w v : Memory I) (ps : List Ptr) : Type 0 where
  pub heap : v.shared.heap ≡ w.shared.heap
  pub fresh : v.shared.fresh ≡ w.shared.fresh
  pub gvc : v.shared.gvc ≡ w.shared.gvc
  pub retired : v.shared.retired ≡ w.shared.retired ++ ps
  pub local : v.local ≡ w.local

abbrev pub gather : {A : Type 0} → (A → List Ptr) → List A → List Ptr
gather f [] = []
gather f (x ∷ xs) = f x ++ gather f xs

-- The nodes of all vectors of a map, in order.
abbrev pub vectors : List (ℕ × List Ptr) → List Ptr
vectors = gather (λ e. e.1)

gather-nil : {A : Type 0} (xs : List A) → gather (λ _. []) xs ≡ []
gather-nil [] = refl
gather-nil (x ∷ xs) = gather-nil xs

gather-one : (ps : List Ptr) → gather (λ p. p ∷ []) ps ≡ ps
gather-one [] = refl
gather-one (p ∷ ps) = ap (◌∷◌ p) (gather-one ps)

module _ {I : Type 0} where
  same : (w : Memory I) → Indexed w w []
  same w = record {
    heap = refl;
    fresh = refl;
    gvc = refl;
    retired = sym (append-nil _);
    local = refl;
  }

  then_ :
      {u v w : Memory I} {ps qs : List Ptr}
      → Indexed u v ps
      → Indexed v w qs
      → Indexed u w (ps ++ qs)
  then_ {ps} {qs} a b = record {
    heap = b.heap ∙ a.heap;
    fresh = b.fresh ∙ a.fresh;
    gvc = b.gvc ∙ a.gvc;
    retired = b.retired ∙ ap (λ x. x ++ qs) a.retired ∙ append_assoc _ ps qs;
    local = b.local ∙ a.local;
  }

  -- A command that returns, and touches indexes and retired nodes only.
  abbrev Does : Op I (Unit {0}) → List Ptr → Type 0
  Does m ps = (w : Memory I) → (v : Memory I) × (m w [] ≡ ok tt v []) × Indexed w v ps

  Does-nothing : Does (λ w es. ok tt w es) []
  Does-nothing w = (w, refl, same w)

  Does-both :
      (m n : Op I (Unit {0})) {ps qs : List Ptr} → Does m ps → Does n qs → Does (m >> n) (ps ++ qs)
  Does-both m n a b w = let (v, e, i) = a w in let (u, f, j) = b v in (u, rw e f, then_ i j)

  Does-each :
      {A : Type 0} (f : A → Op I (Unit {0})) (ps : A → List Ptr)
      → ((x : A) → Does (f x) (ps x))
      → (xs : List A) → Does (for_each f xs) (gather ps xs)
  Does-each f ps one [] = Does-nothing
  Does-each f ps one (x ∷ xs) = Does-both (f x) (for_each f xs) (one x) (Does-each f ps one xs)

  Does-retire : (p : Ptr) → Does (retire_node p) (p ∷ [])
  unfolding retire_node
  Does-retire p w = (
    record w { shared = record w.shared { retired = w.shared.retired ++ (p ∷ []) } },
    refl,
    record { heap = refl; fresh = refl; gvc = refl; retired = refl; local = refl },
  )

module _ (X : IndexOps) (total : IsTotal X) where
  abbrev put_index : Memory X.State → ℕ → X.State → Memory X.State
  put_index w list i = record w {
    shared = record w.shared { index = update w.shared.index list i };
  }

  Indexed-put_index :
      (w : Memory X.State) (list : ℕ) (i : X.State) → Indexed w (put_index w list i) []
  Indexed-put_index w list i = record {
    heap = refl;
    fresh = refl;
    gvc = refl;
    retired = sym (append-nil _);
    local = refl;
  }

  Does-add : (list : ℕ) (p : Ptr) → Does (index_add X list p) []
  Does-add list p w =
      let (i, e) = total.add p w.shared.heap (w.shared.index list) in
      (put_index w list i, rw e, Indexed-put_index w list i)

  Does-remove : (list : ℕ) (p : Ptr) → Does (index_remove X list p) []
  Does-remove list p w =
      let (i, e) = total.remove p w.shared.heap (w.shared.index list) in
      (put_index w list i, rw e, Indexed-put_index w list i)

  Does-add_all : (e : ℕ × List Ptr) → Does (add_all X e) []
  unfolding add_all
  Does-add_all (list, ps) =
      subst (Does (for_each (index_add X list) ps)) (gather-nil ps)
        (Does-each (index_add X list) (λ _. []) (Does-add list) ps)

  remove_one : ℕ → Ptr → Op X.State (Unit {0})
  remove_one list p = do index_remove X list p; retire_node p

  Does-remove_one : (list : ℕ) (p : Ptr) → Does (remove_one list p) (p ∷ [])
  unfolding remove_one
  Does-remove_one list p =
      Does-both (index_remove X list p) (retire_node p) (Does-remove list p) (Does-retire p)

  Does-remove_all : (e : ℕ × List Ptr) → Does (remove_all X e) e.1
  unfolding remove_all remove_one
  Does-remove_all (list, ps) =
      subst (Does (for_each (remove_one list) ps)) (gather-one ps)
        (Does-each (remove_one list) (λ p. p ∷ []) (Does-remove_one list) ps)

  pub update_index-run :
      (w : Memory X.State)
      → (v : Memory X.State) × (update_index X w [] ≡ ok tt v [])
        × Indexed w v (vectors w.local.index_remove)
  unfolding update_index
  update_index-run w =
      let (v, e, i) = Does-each (add_all X) (λ _. []) Does-add_all w.local.index_add w in
      let (u, f, j) = Does-each (remove_all X) (λ e. e.1) Does-remove_all v.local.index_remove v in
      (
        u,
        rw e f,
        subst (λ l. Indexed w u (vectors l.index_remove)) i.local
            (subst (λ ps. Indexed w u (ps ++ vectors v.local.index_remove))
              (gather-nil w.local.index_add) (then_ i j)),
      )
