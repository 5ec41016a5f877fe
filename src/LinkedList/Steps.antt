-- ===== src/LinkedList/Steps.antt =====
-- datatypes/LinkedList.h: the locked parts of the singleton operations, on nodes that nobody else
-- touches meanwhile.
use transactional_data_struc.Base.{
  ℕ, ◌+◌, Bool, true, false, Option, none, some, [], ◌∷◌, ◌++◌, ◌≡◌, ◌≢◌, sym, arith, ==_refl,
  update, update_self, update_ne, update-update, update_comm,
}
use transactional_data_struc.Effect.{ok}
use transactional_data_struc.Memory.{
  Ptr, null, Node, Heap, Op, get_version, get_new_node, retire_node,
}
use transactional_data_struc.Memory.Solo.{Memory, put_node}
use transactional_data_struc.Memory.Nodes
use transactional_data_struc.Node.Word
use transactional_data_struc.Chain.Quiet.{IsQuiet}
use transactional_data_struc.Index.{IndexOps}
use transactional_data_struc.LinkedList.{LinkedList}
use transactional_data_struc.LinkedList.Singleton.{overwrite, insert_before, append, remove_at}

-- The word of a node that a singleton operation has overwritten.
abbrev pub overwritten_word : ℕ → ℕ → ℕ
overwritten_word version l =
    Word.unlocked (Word.set_version version (Word.set_singleton true (Word.locked l)))

locked-held : (l : ℕ) → Word.is_locked (Word.locked l) ≡ true
unfolding Word.is_locked Word.locked
locked-held l = ground arith

locked-live : (l : ℕ) → Word.is_deleted l ≡ false → Word.is_deleted (Word.locked l) ≡ false
unfolding Word.is_deleted Word.locked
locked-live l h = ground arith

set_singleton-held :
    (l : ℕ) (b : Bool) → Word.is_locked l ≡ true → Word.is_locked (Word.set_singleton b l) ≡ true
unfolding Word.is_locked Word.set_singleton
set_singleton-held l b h = ground arith

set_version-held :
    (l v : ℕ) → Word.is_locked l ≡ true → Word.is_locked (Word.set_version v l) ≡ true
unfolding Word.is_locked Word.set_version
set_version-held l v h = ground arith

set_version_and_singleton-held :
    (l v : ℕ) (b : Bool)
    → Word.is_locked l ≡ true
    → Word.is_locked (Word.set_version_and_singleton v b l) ≡ true
unfolding Word.is_locked Word.set_version_and_singleton
set_version_and_singleton-held l v b h = ground arith

set_all-held :
    (l v : ℕ) (d b : Bool)
    → Word.is_locked l ≡ true
    → Word.is_locked (Word.set_version_and_deleted_and_singleton v d b l) ≡ true
unfolding Word.is_locked Word.set_version_and_deleted_and_singleton
set_all-held l v d b h = ground arith

abbrev pub overwritten : ℕ → ℕ → Node → Node
overwritten version v n = record n { val = some v; word = overwritten_word version n.word }

module _ {I : Type 0} where
  pub overwrite-run :
      (w : Memory I) (key v s t : ℕ) (retry : Op I (Option ℕ)) {n m : Node}
      → w.shared.heap s ≡ some n
      → n.next ≡ t
      → w.shared.heap t ≡ some m
      → m.key ≡ key
      → IsQuiet m
      → overwrite key v s t retry w [] ≡ ok m.val (put_node w t (overwritten w.shared.gvc v m)) []
  unfolding overwrite Nodes.try_lock Nodes.is_deleted Nodes.set_singleton Nodes.set_version
      Nodes.unlock get_version
  overwrite-run w key v s t retry {m} at_s next at_t hit quiet =
      let h0 = locked-held m.word in
      let h1 = set_singleton-held (Word.locked m.word) true h0 in
      let h2 = set_version-held (Word.set_singleton true (Word.locked m.word)) w.shared.gvc h1 in
      simp (
        at_s,
        next,
        at_t,
        hit,
        quiet.free,
        ==_refl,
        update_self,
        update-update,
        h0,
        h1,
        h2,
        locked-live m.word quiet.live,
      )

-- The node that an insertion makes, and the node before it.
abbrev pub inserted : ℕ → ℕ → ℕ → Ptr → Node
inserted version key v next = record {
  key = key;
  val = some v;
  next = next;
  word = Word.set_version_and_singleton version true 0;
}

abbrev pub relinked : Ptr → Node → Node
relinked f n = record n { next = f; word = Word.unlocked (Word.locked n.word) }

module _ (X : IndexOps) (list : LinkedList) where
  -- After an insertion behind `s`, which the index has been told of.
  abbrev pub after_insert : Memory X.State → ℕ → ℕ → Ptr → Ptr → Node → X.State → Memory X.State
  after_insert w key v s t n i = record w {
    shared = record w.shared {
      heap =
          update (update w.shared.heap s (some (relinked w.shared.fresh n))) w.shared.fresh
            (some (inserted w.shared.gvc key v t));
      fresh = w.shared.fresh + 1;
      index = update w.shared.index list.self i;
    };
  }

  pub insert_before-run :
      (w : Memory X.State) (key v s t : ℕ) (retry : Op X.State (Option ℕ)) {n : Node} {i : X.State}
      → w.shared.heap s ≡ some n
      → n.next ≡ t
      → IsQuiet n
      → s ≢ w.shared.fresh
      → X.add w.shared.fresh (after_insert w key v s t n i).shared.heap (w.shared.index list.self)
        ≡ some i
      → insert_before X list key v s t retry w [] ≡ ok none (after_insert w key v s t n i) []
  unfolding insert_before Nodes.try_lock Nodes.is_deleted Nodes.unlock get_version get_new_node
      Nodes.set_version_and_singleton_no_lock_assert
  insert_before-run w key v s t retry {n} {i} at_s next quiet ne added =
      let f = w.shared.fresh in
      let skip = λ (g : Heap) (a : Option Node). update_ne g f a s ne in
      let skip_s = λ (g : Heap) (a : Option Node). update_ne g s a f (λ e. ne (sym e)) in
      let comm = λ (g : Heap) (a b : Option Node). update_comm g f s a b (λ e. ne (sym e)) in
      simp (
        at_s,
        next,
        quiet.free,
        ==_refl,
        update_self,
        update-update,
        skip,
        skip_s,
        comm,
        locked-held n.word,
        locked-live n.word quiet.live,
        added,
      )

  pub append-run :
      (w : Memory X.State) (key v s : ℕ) (retry : Op X.State (Option ℕ)) {n : Node} {i : X.State}
      → w.shared.heap s ≡ some n
      → n.next ≡ null
      → IsQuiet n
      → s ≢ w.shared.fresh
      → X.add w.shared.fresh
          (after_insert w key v s null n i).shared.heap
          (w.shared.index list.self)
        ≡ some i
      → append X list key v s retry w [] ≡ ok none (after_insert w key v s null n i) []
  unfolding append Nodes.try_lock Nodes.is_deleted Nodes.unlock get_version get_new_node
      Nodes.set_version_and_singleton_no_lock_assert
  append-run w key v s retry {n} {i} at_s next quiet ne added =
      let f = w.shared.fresh in
      let skip = λ (g : Heap) (a : Option Node). update_ne g f a s ne in
      let skip_s = λ (g : Heap) (a : Option Node). update_ne g s a f (λ e. ne (sym e)) in
      let comm = λ (g : Heap) (a b : Option Node). update_comm g f s a b (λ e. ne (sym e)) in
      simp (
        at_s,
        next,
        quiet.free,
        ==_refl,
        update_self,
        update-update,
        skip,
        skip_s,
        comm,
        locked-held n.word,
        locked-live n.word quiet.live,
        added,
      )

-- The node before a removed one, and the removed one.
abbrev pub bypassing : ℕ → Ptr → Node → Node
bypassing version next n = record n {
  next = next;
  word = Word.unlocked (Word.set_version_and_singleton version true (Word.locked n.word));
}

abbrev pub removed : ℕ → Node → Node
removed version m = record m {
  val = none;
  word =
      Word.unlocked
        (Word.set_version_and_deleted_and_singleton version true true (Word.locked m.word));
}

module _ (X : IndexOps) (list : LinkedList) where
  -- After the node `t` behind `s` has been removed, and the index has been told.
  abbrev pub after_remove : Memory X.State → Ptr → Ptr → Node → Node → X.State → Memory X.State
  after_remove w s t n m i = record w {
    shared = record w.shared {
      heap =
          update (update w.shared.heap s (some (bypassing w.shared.gvc m.next n))) t
            (some (removed w.shared.gvc m));
      index = update w.shared.index list.self i;
      retired = w.shared.retired ++ (t ∷ []);
    };
  }

  pub remove_at-run :
      (w : Memory X.State) (s t : ℕ) (retry : Op X.State (Option ℕ)) {n m : Node} {i : X.State}
      → w.shared.heap s ≡ some n
      → n.next ≡ t
      → w.shared.heap t ≡ some m
      → IsQuiet n
      → IsQuiet m
      → s ≢ t
      → X.remove t (after_remove w s t n m i).shared.heap (w.shared.index list.self) ≡ some i
      → remove_at X list s t retry w [] ≡ ok m.val (after_remove w s t n m i) []
  unfolding remove_at Nodes.try_lock Nodes.is_deleted Nodes.unlock get_version retire_node
      Nodes.set_version_and_singleton Nodes.set_version_and_deleted_and_singleton
  remove_at-run w s t retry {n} {m} {i} at_s next at_t quiet_s quiet_t ne told =
      let g = w.shared.gvc in
      let skip = λ (h : Heap) (a : Option Node). update_ne h t a s ne in
      let skip_s = λ (h : Heap) (a : Option Node). update_ne h s a t (λ e. ne (sym e)) in
      let comm = λ (h : Heap) (a b : Option Node). update_comm h t s a b (λ e. ne (sym e)) in
      simp (
        at_s,
        at_t,
        next,
        quiet_s.free,
        quiet_t.free,
        ==_refl,
        update_self,
        update-update,
        skip,
        skip_s,
        comm,
        locked-held n.word,
        locked-held m.word,
        locked-live n.word quiet_s.live,
        set_version_and_singleton-held (Word.locked n.word) g true (locked-held n.word),
        set_all-held (Word.locked m.word) g true true (locked-held m.word),
        told,
      )
