-- ===== src/LinkedList/Overlay/Sets.antt =====
-- LocalStorage.h: the nodes of the write set and of the read set, as `putIntoWriteSet` and
-- `readSet.emplace` make them grow.
use transactional_data_struc.Base.{
  ℕ, Bool, true, Option, some, List, [], ◌∷◌, ◌++◌, ◌≡◌, ◌≢◌, ◌⊎◌, inl, inr, ◌∙◌, sym, arith, has,
  assign, emplace, Distinct, Bool-cases, subst, ◌==◌, ◌||◌, ==→eq,
}
use native.Mathlib.Decide.{ℕ_discrete}
use transactional_data_struc.Memory.{Ptr, Node, Heap}
use transactional_data_struc.Memory.Storage.{
  WriteElement, Local, put_into_write_set, read_set_emplace, add_to_index_add, add_to_index_remove,
}
use transactional_data_struc.Transaction.Lock.{WriteSet, keys, NodesAre}
use transactional_data_struc.LinkedList.Overlay.{IsFit}

has-assign :
    (p q : Ptr) (e : WriteElement) (ws : WriteSet)
    → has q (keys (assign p e ws)) ≡ ((q == p) || has q (keys ws))
unfolding assign
has-assign p q e [] = ground arith
has-assign p q e ((r, d) ∷ ws) = ground (arith, has-assign p q e ws)

assign-Distinct :
    (p : Ptr) (e : WriteElement) (ws : WriteSet)
    → Distinct (keys ws)
    → Distinct (keys (assign p e ws))
unfolding assign
assign-Distinct p e [] d = ground arith
assign-Distinct p e ((r, c) ∷ ws) d = ground (arith, has-assign p r e ws, assign-Distinct p e ws)

has-snoc : (q p : Ptr) (xs : List Ptr) → has q (xs ++ (p ∷ [])) ≡ (has q xs || (q == p))
has-snoc q p [] = ground arith
has-snoc q p (x ∷ xs) = ground (arith, has-snoc q p xs)

has-emplace :
    (q p : Ptr) (xs : List Ptr) → has q (emplace xs p) ≡ true → (q ≡ p) ⊎ (has q xs ≡ true)
unfolding emplace
has-emplace q p xs i = elim (Bool-cases (has p xs)) [
  | inl old ↦ inr (ground (arith, i, old))
  | inr new ↦ elim (Bool-cases (has q xs)) [
    | inl here ↦ inr here
    | inr o ↦ inl (==→eq q p (ground (arith, i, new, o, has-snoc q p xs)))
  ]
]

-- The write set has each node once, and the nodes of both sets are there and fit.
pub record Tracks (read_version : ℕ) (h : Heap) (l : Local) : Type 0 where
  pub once : Distinct (keys l.write_set)
  pub written : NodesAre (IsFit read_version) h (keys l.write_set)
  pub read : NodesAre (IsFit read_version) h l.read_set

abbrev FitAt : ℕ → Heap → Ptr → Type 0
FitAt read_version h p = (n : Node) × (h p ≡ some n) × IsFit read_version n

module _ {read_version : ℕ} {h : Heap} {l : Local} where
  pub Tracks-put :
      (p next : Ptr) (val : Option ℕ) (deleted : Bool) {n : Node}
      → h p ≡ some n
      → IsFit read_version n
      → Tracks read_version h l
      → Tracks read_version h (put_into_write_set p next val deleted l)
  unfolding put_into_write_set
  Tracks-put p next val deleted {n} at fit t =
      let e : WriteElement = record { next = next; val = val; deleted = deleted } in
      record {
        once = assign-Distinct p e l.write_set t.once;
        written = λ q i. elim (Bool-cases (q == p)) [
          | inl same ↦ subst (FitAt read_version h) (sym (==→eq q p same)) (n, at, fit)
          | inr other ↦ t.written q (ground (arith, has-assign p q e l.write_set))
        ];
        read = t.read;
      }

  pub Tracks-read :
      (p : Ptr) {n : Node}
      → h p ≡ some n
      → IsFit read_version n
      → Tracks read_version h l
      → Tracks read_version h (read_set_emplace p l)
  unfolding read_set_emplace
  Tracks-read p {n} at fit t = record {
    once = t.once;
    written = t.written;
    read = λ q i. elim (has-emplace q p l.read_set i) [
      | inl same ↦ subst (FitAt read_version h) (sym same) (n, at, fit)
      | inr old ↦ t.read q old
    ];
  }

  pub Tracks-index_add :
      (list p : Ptr) → Tracks read_version h l → Tracks read_version h (add_to_index_add list p l)
  unfolding add_to_index_add
  Tracks-index_add list p t = record { once = t.once; written = t.written; read = t.read }

  pub Tracks-index_remove :
      (list p : Ptr)
      → Tracks read_version h l
      → Tracks read_version h (add_to_index_remove list p l)
  unfolding add_to_index_remove
  Tracks-index_remove list p t = record { once = t.once; written = t.written; read = t.read }

  -- A new node that is fit.
  pub Tracks-new :
      (f : Ptr) (h' : Heap) {n : Node}
      → h' f ≡ some n
      → IsFit read_version n
      → ((r : Ptr) → r ≢ f → h' r ≡ h r)
      → Tracks read_version h l
      → Tracks read_version h' l
  Tracks-new f h' {n} at fit others t =
      let move : (q : Ptr) → FitAt read_version h q → FitAt read_version h' q = λ q a.
        elim (ℕ_discrete q f) [
          | yes same ↦ subst (FitAt read_version h') (sym same) (n, at, fit)
          | no ne ↦ let (m, there, good) = a in (m, others q ne ∙ there, good)
        ] in
      record {
        once = t.once;
        written = λ q i. move q (t.written q i);
        read = λ q i. move q (t.read q i);
      }
