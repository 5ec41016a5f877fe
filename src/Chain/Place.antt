-- ===== src/Chain/Place.antt =====
-- What stands at the place where a search ends.
use transactional_data_struc.Base.{
  ℕ, suc, Bool, true, false, none, some, [], ◌∷◌, ◌≡◌, ◌≢◌, refl, ◌∙◌, has, Distinct, arith, ne→==,
  eq→==,
}
use transactional_data_struc.Memory.{null, Node, Heap}
use transactional_data_struc.Chain.Spec.{Cells, addresses, lookup, Ascending, lookup-none, address}
use transactional_data_struc.Chain.Shape.{
  From, last, more, At, at_end, at_hit, at_gap, at_skip, From-head,
}

module _ {Q : Node → Type 0} {h : Heap} where
  -- The node before the place leads to it.
  pub At-before :
      {key p s t : ℕ} {n : Node} {es : Cells} {b : Bool}
      → From Q h p n es
      → At key p es b s t
      → (m : Node) × (h s ≡ some m) × Q m × (m.next ≡ t)
  At-before (last {n} at good e) at_end = (n, at, good, e)
  At-before (more {n} at good e ne k v f) (at_hit hit) = (n, at, good, e)
  At-before (more {n} at good e ne k v f) (at_gap gap) = (n, at, good, e)
  At-before (more at good e ne k v f) (at_skip lt a) = At-before f a

  -- Where the key is there, the node at the place has it, and its value.
  pub At-found :
      {key p s t : ℕ} {n : Node} {es : Cells}
      → From Q h p n es
      → At key p es true s t
      → (m : Node) × (h t ≡ some m) × Q m × (m.key ≡ key) × (m.val ≡ lookup key es) × (t ≢ null)
  unfolding lookup
  At-found (last at good e) a = elim a [ ]
  At-found {key} (more {k} {m} at good e ne k_ v_ f) (at_hit hit) =
      let (at_q, good_q) = From-head f in (m, at_q, good_q, k_ ∙ hit, rw (eq→== k key hit) v_, ne)
  At-found {key} (more {k} at good e ne k_ v_ f) (at_skip lt a) =
      let (m, at_t, good_t, key_t, val_t, ne_t) = At-found f a in
      (m, at_t, good_t, key_t, rw (ne→== k key (omega arith)) val_t, ne_t)

  -- Where the key is not there and the place is not the end, a node stands at the place.
  pub At-gap :
      {key p s t : ℕ} {n : Node} {es : Cells}
      → From Q h p n es
      → At key p es false s t
      → t ≢ null
      → (m : Node) × (h t ≡ some m)
  At-gap (last at good e) at_end ne = absurd (ne refl)
  At-gap (more {m} at good e ne k_ v_ f) (at_gap gap) x = (m, (From-head f).0)
  At-gap (more at good e ne k_ v_ f) (at_skip lt a) x = At-gap f a x

pub At-absent :
    {key : ℕ} (b : ℕ) {p s t : ℕ} {es : Cells}
    → At key p es false s t
    → Ascending b es
    → lookup key es ≡ none
unfolding lookup
At-absent b at_end asc = refl
At-absent {key} b (at_gap {k} {es} gap) asc =
    rw (ne→== k key (omega arith)) (lookup-none key (suc k) es (omega arith) asc.1)
At-absent {key} b (at_skip {k} lt a) asc =
    rw (ne→== k key (omega arith)) (At-absent (suc k) a asc.1)

pub At-mem_next : {key p s t : ℕ} {es : Cells} → At key p es true s t → has t (addresses es) ≡ true
At-mem_next (at_hit {q} e) = ground arith
At-mem_next (at_skip lt a) = ground (arith, At-mem_next a)

pub At-ne :
    {key p s t : ℕ} {es : Cells} → At key p es true s t → Distinct (p ∷ addresses es) → s ≢ t
At-ne (at_hit e) d = ground arith
At-ne (at_skip lt a) d = At-ne a d.1

pub At-address : {key p s t : ℕ} {es : Cells} → At key p es true s t → address key es ≡ t ∷ []
unfolding address
At-address {key} (at_hit {k} hit) = rw (eq→== k key hit)
At-address {key} (at_skip {k} lt a) = rw (ne→== k key (omega arith)) (At-address a)
