-- ===== src/LinkedList/Locals.antt =====
-- datatypes/LinkedList.h: what the locked parts of the singleton operations do to a heap, as changes at
-- a place of a list.
use transactional_data_struc.Base.{
  ℕ, some, ◌≡◌, ◌≢◌, refl, ◌∙◌, arith, update, update_self, update_ne,
}
use transactional_data_struc.Memory.{Ptr, null, Node, Heap}
use transactional_data_struc.Node.Word
use transactional_data_struc.Chain.Update.{Inserted, Overwritten, Bypassed}
use transactional_data_struc.Chain.Quiet.{IsQuiet}
use transactional_data_struc.LinkedList.Steps.{overwritten, inserted, relinked, bypassing, removed}

overwritten-IsQuiet : (g v : ℕ) (n : Node) → IsQuiet n → IsQuiet (overwritten g v n)
unfolding Word.is_locked Word.is_deleted Word.locked Word.unlocked Word.set_version
    Word.set_singleton
overwritten-IsQuiet g v n q = ground arith

inserted-IsQuiet : (g key v : ℕ) (t : Ptr) → IsQuiet (inserted g key v t)
unfolding Word.is_locked Word.is_deleted Word.set_version_and_singleton
inserted-IsQuiet g key v t = ground arith

relinked-IsQuiet : (f : Ptr) (n : Node) → IsQuiet n → IsQuiet (relinked f n)
unfolding Word.is_locked Word.is_deleted Word.locked Word.unlocked
relinked-IsQuiet f n q = ground arith

bypassing-IsQuiet : (g : ℕ) (t : Ptr) (n : Node) → IsQuiet n → IsQuiet (bypassing g t n)
unfolding Word.is_locked Word.is_deleted Word.locked Word.unlocked Word.set_version_and_singleton
bypassing-IsQuiet g t n q = ground arith

pub overwritten-Overwritten :
    (h : Heap) (g val t : ℕ) {m : Node}
    → h t ≡ some m
    → IsQuiet m
    → Overwritten IsQuiet h (update h t (some (overwritten g val m))) val t
overwritten-Overwritten h g val t {m} at quiet = record {
  here = λ n e. (
    overwritten g val m,
    update_self h t _,
    ground (arith, at, e),
    refl,
    ground (arith, at, e),
    overwritten-IsQuiet g val m quiet,
  );
  others = λ r ne. update_ne h t _ r ne;
}

pub inserted-Inserted :
    (h : Heap) (g key val s t f : ℕ) {n : Node}
    → h s ≡ some n
    → IsQuiet n
    → f ≢ null
    → s ≢ f
    → Inserted IsQuiet h
        (update (update h s (some (relinked f n))) f (some (inserted g key val t)))
        key
        val
        s
        t
        f
inserted-Inserted h g key val s t f {n} at quiet not_null ne = record {
  not_null = not_null;
  new = (inserted g key val t, update_self _ f _, refl, refl, refl, inserted-IsQuiet g key val t);
  before = λ k e. (
    relinked f n,
    update_ne _ f _ s ne ∙ update_self h s _,
    ground (arith, at, e),
    ground (arith, at, e),
    refl,
    relinked-IsQuiet f n quiet,
  );
  others = λ r ne_f ne_s. update_ne _ f _ r ne_f ∙ update_ne h s _ r ne_s;
}

pub removed-Bypassed :
    (h : Heap) (g s t : ℕ) {n m : Node}
    → h s ≡ some n
    → h t ≡ some m
    → IsQuiet n
    → s ≢ t
    → Bypassed IsQuiet h
        (update (update h s (some (bypassing g m.next n))) t (some (removed g m)))
        s
        t
removed-Bypassed h g s t {n} {m} at_s at_t quiet ne = record {
  before = λ k l e_k e_l. (
    bypassing g m.next n,
    update_ne _ t _ s ne ∙ update_self h s _,
    ground (arith, at_s, e_k),
    ground (arith, at_s, e_k),
    ground (arith, at_t, e_l),
    bypassing-IsQuiet g m.next n quiet,
  );
  others = λ r ne_s ne_t. update_ne _ t _ r ne_t ∙ update_ne h s _ r ne_s;
}
