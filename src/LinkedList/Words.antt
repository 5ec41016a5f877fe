-- ===== src/LinkedList/Words.antt =====
-- nodes/LNode.h, datatypes/LinkedList.h: an insertion leaves the version words of the nodes alone.
use transactional_data_struc.Base.{
  ℕ, Option, none, some, true, false, ◌≡◌, ◌≢◌, sym, ◌∙◌, ap, subst, ◌==◌, ==→eq, ==→ne, eq→==,
  ne→==, update, update_ne, update_self, Bool-cases, inl, inr, arith,
}
use transactional_data_struc.Memory.{Ptr, Node, Heap}
use transactional_data_struc.Node.Word
use transactional_data_struc.Chain.Spec.{Cells, lookup}
use transactional_data_struc.Chain.Shape.{At, at_hit, at_skip}
use transactional_data_struc.Chain.Quiet.{IsQuiet}
use transactional_data_struc.LinkedList.Steps.{relinked}

-- The version word at an address.
abbrev pub word_of : Option Node → Option ℕ
word_of none = none
word_of (some n) = some n.word

abbrev pub word_at : Heap → Ptr → Option ℕ
word_at h p = word_of (h p)

pub some_ne_none : {A : Type 0} {x : A} → some x ≢ none
some_ne_none e = cc

relocked : (l : ℕ) → Word.is_locked l ≡ false → Word.unlocked (Word.locked l) ≡ l
unfolding Word.is_locked Word.locked Word.unlocked
relocked l free = ground arith

pub At-bound :
    {key p s t : ℕ} {es : Cells} → At key p es true s t → (v : ℕ) × (lookup key es ≡ some v)
unfolding lookup
At-bound {key} (at_hit {k} {v} hit) = (v, rw (eq→== k key hit))
At-bound {key} (at_skip {k} lt a) = let (v, e) = At-bound a in (v, rw (ne→== k key (omega arith)) e)

-- An insertion behind `s` keeps the words of the nodes that were there.
pub words-inserted :
    (h : Heap) (s f : Ptr) (m : Node) {n : Node}
    → h s ≡ some n
    → IsQuiet n
    → (p : Ptr) → p ≢ f
    → word_at (update (update h s (some (relinked f n))) f (some m)) p ≡ word_at h p
words-inserted h s f m {n} at quiet p new =
    let o : Option Node = some (relinked f n) in
    ap word_of (update_ne (update h s o) f (some m) p new) ∙ elim (Bool-cases (p == s)) [
      | inl here ↦
          subst (λ x. word_at (update h s o) x ≡ word_at h x) (sym (==→eq p s here))
            (ap word_of (update_self h s o)
              ∙ ap some (relocked n.word quiet.free)
              ∙ ap word_of (sym at))
      | inr there ↦ ap word_of (update_ne h s o p (==→ne p s there))
    ]
