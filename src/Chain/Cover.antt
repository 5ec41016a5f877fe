-- ===== src/Chain/Cover.antt =====
-- Which cells a list has, and what a list covers of another: its cells, apart from those that are
-- marked as gone.
use transactional_data_struc.Base.{
  ℕ, suc, ◌+◌, ◌<◌, ◌≤◌, Bool, true, false, ◌&&◌, ◌||◌, [], ◌∷◌, ◌==◌, ltb, ◌≡◌, refl, arith,
  length, some, ◌⊎◌, inl, inr, if◌then◌else◌, has, Bool-cases, subst, sym, ◌≢◌, ◌∙◌,
}
use transactional_data_struc.Memory.{Ptr, null, Node, Heap}
use transactional_data_struc.Chain.Spec.{Cells, addresses, insert, erase, Ascending}
use transactional_data_struc.Chain.Shape.{
  From, last, more, At, at_hit, at_skip, Leads, here, ahead, From-head, From-frame,
}
use transactional_data_struc.Chain.Sorted.{IsSorted}

-- The cell at `p` with the key `k` is there.
unfoldable pub has_cell : Ptr → ℕ → Cells → Bool
has_cell p k [] = false
has_cell p k ((q, j, _) ∷ es) = ((p == q) && (k == j)) || has_cell p k es

-- How many cells have a smaller key.
unfoldable pub smaller : ℕ → Cells → ℕ
smaller key [] = 0
smaller key ((_, k, _) ∷ es) = (if ltb k key then 1 else 0) + smaller key es

pub smaller_mono : (j k : ℕ) (es : Cells) → j ≤ k → smaller j es ≤ smaller k es
unfolding smaller
smaller_mono j k [] le = omega arith
smaller_mono j k ((p, i, v) ∷ es) le = ground (arith, smaller_mono j k es)

pub smaller-length : (k : ℕ) (es : Cells) → smaller k es ≤ length es
unfolding smaller
smaller-length k [] = omega arith
smaller-length k ((p, i, v) ∷ es) = ground (arith, smaller-length k es)

-- A cell that comes before the place of a key.
pub record Before (key : ℕ) (es : Cells) (p : Ptr) : Type 0 where
  pub key_of : ℕ
  pub less : key_of < key
  pub cell : has_cell p key_of es ≡ true
  pub fewer : smaller key_of es < smaller key es

pub Leads-Before : {key q p : ℕ} {es ds : Cells} → Leads key q es p ds → (p ≡ q) ⊎ Before key es p
unfolding has_cell smaller
Leads-Before here = inl refl
Leads-Before {key} (ahead {k} {es} lt l) = elim (Leads-Before l) [
  | inl e ↦ inr (record {
    key_of = k;
    less = lt;
    cell = ground (arith, e);
    fewer = ground (arith, smaller_mono k key es (omega arith));
  })
  | inr b ↦ inr (record {
    key_of = b.key_of;
    less = b.less;
    cell = ground (arith, b.cell);
    fewer = ground (arith, b.fewer, b.less);
  })
]

pub cell-least : (p k b : ℕ) (es : Cells) → has_cell p k es ≡ true → Ascending b es → b ≤ k
unfolding has_cell
cell-least p k b [] i asc = absurd (ground arith)
cell-least p k b ((r, j, v) ∷ es) i asc = elim (Bool-cases (has_cell p k es)) [
  | inl later ↦ omega (arith, cell-least p k (suc j) es later asc.1)
  | inr o ↦ omega (arith, asc.0, has_cell-hit p k r j v es i o)
]
  where
    has_cell-hit :
        (p k r j v : ℕ) (es : Cells)
        → has_cell p k ((r, j, v) ∷ es) ≡ true
        → has_cell p k es ≡ false
        → k ≡ j
    has_cell-hit p k r j v es i o = ground arith

pub cell-Leads :
    (key p k b q : ℕ) (es : Cells)
    → has_cell p k es ≡ true
    → k < key
    → Ascending b es
    → (ds : Cells) × Leads key q es p ds
unfolding has_cell
cell-Leads key p k b q [] i lt asc = absurd (ground arith)
cell-Leads key p k b q ((r, j, v) ∷ es) i lt asc = elim (Bool-cases (has_cell p k es)) [
  | inl later ↦
      let (ds, l) = cell-Leads key p k (suc j) r es later lt asc.1 in
      (ds, ahead (omega (arith, cell-least p k (suc j) es later asc.1)) l)
  | inr o ↦
      let e : r ≡ p = ground (arith, i, o) in
      let less : j < key = ground (arith, i, o) in
      (es, subst (λ x. Leads key q ((r, j, v) ∷ es) x es) e (ahead less here))
]

pub has_cell-insert :
    (f key v p k : ℕ) (es : Cells)
    → has_cell p k es ≡ true
    → has_cell p k (insert f key v es) ≡ true
unfolding has_cell insert
has_cell-insert f key v p k [] i = absurd (ground arith)
has_cell-insert f key v p k ((q, j, u) ∷ es) i = ground (arith, has_cell-insert f key v p k es)

-- What is erased is the cell at the place of the key.
pub has_cell-erase :
    {key r s t : ℕ} {es : Cells} (p k : ℕ)
    → At key r es true s t
    → has_cell p k es ≡ true
    → (p ≡ t) ⊎ (has_cell p k (erase key es) ≡ true)
unfolding has_cell erase
has_cell-erase p k (at_hit e) i = ground arith
has_cell-erase {key} p k (at_skip {q} {k = j} {es} lt a) i = elim (Bool-cases (has_cell p k es)) [
  | inl later ↦ elim (has_cell-erase p k a later) [
    | inl e ↦ inl e
    | inr still ↦ inr (ground (arith, still))
  ]
  | inr o ↦ inr (ground arith)
]

pub has_cell-address : (p k : ℕ) (es : Cells) → has_cell p k es ≡ true → has p (addresses es) ≡ true
unfolding has_cell
has_cell-address p k [] i = absurd (ground arith)
has_cell-address p k ((q, j, u) ∷ es) i = ground (arith, has_cell-address p k es)

-- A next pointer is null or leads to a node that is as `Q` says.
abbrev pub Onward : (Node → Type 0) → Heap → Ptr → Type 0
Onward Q h q = (q ≡ null) ⊎ ((q ≢ null) × (m : Node) × (h q ≡ some m) × Q m)

-- The nodes of a list satisfy what follows from what they satisfy.
pub From-map :
    {Q R : Node → Type 0} {h : Heap} {p : Ptr} {n : Node} {es : Cells}
    → ((m : Node) → Q m → R m)
    → From Q h p n es
    → From R h p n es
From-map {n} f (last at good e) = last at (f n good) e
From-map {n} f (more at good e ne k v rest) = more at (f n good) e ne k v (From-map f rest)

pub IsSorted-map :
    {Q R : Node → Type 0} {h : Heap} {p : Ptr} {es : Cells}
    → ((m : Node) → Q m → R m)
    → IsSorted Q h p es
    → IsSorted R h p es
IsSorted-map f l = record {
  first = l.first;
  from = From-map f l.from;
  ascending = l.ascending;
  distinct = l.distinct;
}

-- A heap that agrees on the nodes of a sorted list has the list.
pub IsSorted-frame :
    {Q : Node → Type 0} {h h' : Heap} {p : Ptr} {es : Cells}
    → IsSorted Q h p es
    → ((r : Ptr) → has r (p ∷ addresses es) ≡ true → h' r ≡ h r)
    → IsSorted Q h' p es
IsSorted-frame l same = record {
  first = l.first;
  from = From-frame l.from same;
  ascending = l.ascending;
  distinct = l.distinct;
}

module _ {Q : Node → Type 0} {h : Heap} where
  pub From-cell :
      {p : Ptr} {n : Node} {es : Cells} (q k : ℕ)
      → From Q h p n es
      → has_cell q k es ≡ true
      → (m : Node) × (h q ≡ some m) × Q m × (m.key ≡ k)
  unfolding has_cell
  From-cell q k (last at good e) i = absurd (ground arith)
  From-cell q k (more {q = r} {k = j} {m} {es} at good e ne k_ v_ f) i =
      elim (Bool-cases (has_cell q k es)) [
        | inl later ↦ From-cell q k f later
        | inr o ↦
            let (at_r, good_r) = From-head f in
            let e : r ≡ q = ground (arith, i, o) in
            let e2 : j ≡ k = ground (arith, i, o) in
            (m, subst (λ x. h x ≡ some m) e at_r, good_r, k_ ∙ e2)
      ]

  -- Every node of a list has a value.
  pub From-valued :
      {p : Ptr} {n : Node} {es : Cells} (q : Ptr)
      → From Q h p n es
      → has q (addresses es) ≡ true
      → (m : Node) × (v : ℕ) × (h q ≡ some m) × (m.val ≡ some v)
  From-valued q (last at good e) i = absurd (ground arith)
  From-valued q (more {q = r} {v} {m} {es} at good e ne k_ v_ f) i =
      elim (Bool-cases (has q (addresses es))) [
        | inl later ↦ From-valued q f later
        | inr o ↦
            let same : r ≡ q = ground (arith, i, o) in
            (m, v, subst (λ x. h x ≡ some m) same (From-head f).0, v_)
      ]

  pub From-Onward : {p : Ptr} {n : Node} {es : Cells} → From Q h p n es → Onward Q h n.next
  From-Onward (last at good e) = inl e
  From-Onward (more {q} {m} at good e ne k_ v_ f) =
      let (at_q, good_q) = From-head f in
      inr
        (subst (λ x. (x ≢ null) × (m : Node) × (h x ≡ some m) × Q m) (sym e) (ne, m, at_q, good_q))

  -- Where the key is there, a list starts at its node.
  pub From-At :
      {key p s t : ℕ} {n : Node} {es : Cells}
      → From Q h p n es
      → At key p es true s t
      → (m : Node) × (ds : Cells) × From Q h t m ds
  From-At (last at good e) a = elim a [ ]
  From-At (more {m} {es} at good e ne k_ v_ f) (at_hit hit) = (m, es, f)
  From-At (more at good e ne k_ v_ f) (at_skip lt a) = From-At f a
