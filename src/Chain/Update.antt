-- ===== src/Chain/Update.antt =====
-- What insertion, overwriting and unlinking at a place do to the list.
use transactional_data_struc.Base.{
  ℕ, true, false, some, List, ◌∷◌, has, Distinct, ◌≡◌, ◌≢◌, refl, sym, ◌∙◌, arith, ne→==, eq→==,
  lt→ltb, le→ltb, has-ne,
}
use transactional_data_struc.Memory.{Ptr, null, Node, Heap}
use transactional_data_struc.Chain.Spec.{Cells, addresses, insert, erase}
use transactional_data_struc.Chain.Shape.{
  From, last, more, At, at_end, at_hit, at_gap, at_skip, At-mem, From-head, From-frame, From-rehead,
}

ne-hit : {p t : ℕ} (q : ℕ) (ps : List ℕ) → has t ps ≡ true → has p (q ∷ ps) ≡ false → p ≢ t
ne-hit {p} {t} q ps i o = λ x. has-ne t p ps i (ground arith) (sym x)

module _ (Q : Node → Type 0) (h h' : Heap) where
  -- A new node `f` stands between `p` and `q`.
  pub record Inserted (key v : ℕ) (p q f : Ptr) : Type 0 where
    pub not_null : f ≢ null
    pub new : (n : Node) × (h' f ≡ some n) × (n.key ≡ key) × (n.val ≡ some v) × (n.next ≡ q) × Q n
    pub before :
        (n : Node)
        → h p ≡ some n
        → (m : Node) × (h' p ≡ some m) × (m.key ≡ n.key) × (m.val ≡ n.val) × (m.next ≡ f) × Q m
    pub others : (r : Ptr) → r ≢ f → r ≢ p → h' r ≡ h r

  -- The same first node, as far as a list can tell.
  abbrev Still : Ptr → Node → Cells → Type 0
  Still p n es = (m : Node) × (m.key ≡ n.key) × (m.val ≡ n.val) × From Q h' p m es

  pub From-insert :
      {key v p s t f : ℕ} {n : Node} {es : Cells}
      → From Q h p n es
      → At key p es false s t
      → Distinct (f ∷ p ∷ addresses es)
      → Inserted key v s t f
      → Still p n (insert f key v es)
  unfolding insert
  From-insert (last {n} at good e) at_end d i =
      let (new, at_f, key_f, val_f, next_f, good_f) = i.new in
      let (m, at_p, key_p, val_p, next_p, good_p) = i.before n at in
      (m, key_p, val_p, more at_p good_p next_p i.not_null key_f val_f (last at_f good_f next_f))
  From-insert {key} {p} {f} (more {q} {k} {v = u} {n} {es} at good e ne k_ v_ rest) (at_gap lt) d
        i =
      let (new, at_f, key_f, val_f, next_f, good_f) = i.new in
      let (m, at_p, key_p, val_p, next_p, good_p) = i.before n at in
      rw (ne→== k key (omega arith), lt→ltb key k lt)
        (
          m,
          key_p,
          val_p,
          more at_p good_p next_p i.not_null key_f val_f (
              more at_f good_f next_f ne k_ v_ (
                From-frame rest λ r j.
                  i.others r (has-ne r f (q ∷ addresses es) j (ground arith))
                    (has-ne r p (q ∷ addresses es) j d.1.0))),
        )
  From-insert {key} {f} (more {p} {q} {k} {v = u} {n} {es} at good e ne k_ v_ rest)
        (at_skip {r = s} lt a) d i =
      let (m, key_m, val_m, tail) = From-insert rest a (ground arith, (d.1.1.0, d.1.1.1)) i in
      rw (ne→== k key (omega arith), le→ltb key k (omega arith))
        (
          n,
          refl,
          refl,
          more
              (i.others p (ground arith)
                  (λ x. has-ne s p (q ∷ addresses es) (At-mem a) d.1.0 (sym x))
                ∙ at)
              good e ne (key_m ∙ k_) (val_m ∙ v_) tail,
        )

  -- The node `q` gets another value.
  pub record Overwritten (v : ℕ) (q : Ptr) : Type 0 where
    pub here :
        (n : Node)
        → h q ≡ some n
        → (m : Node) × (h' q ≡ some m)
          × (m.key ≡ n.key)
          × (m.val ≡ some v)
          × (m.next ≡ n.next)
          × Q m
    pub others : (r : Ptr) → r ≢ q → h' r ≡ h r

  At-hit-mem : {key p s t : ℕ} {es : Cells} → At key p es true s t → has t (addresses es) ≡ true
  At-hit-mem (at_hit {q} e) = ground arith
  At-hit-mem (at_skip lt a) = ground (arith, At-hit-mem a)

  pub From-overwrite :
      {key v p s t : ℕ} {n : Node} {es : Cells} (f : ℕ)
      → From Q h p n es
      → At key p es true s t
      → Distinct (p ∷ addresses es)
      → Overwritten v t
      → From Q h' p n (insert f key v es)
  unfolding insert
  From-overwrite f (last at good e) a d o = elim a [ ]
  From-overwrite {key} f (more {p} {q} {k} {v = u} {n} {es} at good e ne k_ v_ rest) (at_hit hit) d
        o =
      let (m, at_q, key_q, val_q, next_q, good_q) = o.here _ (From-head rest).0 in
      rw (eq→== k key hit) (
        more (o.others p (ground arith) ∙ at) good e ne (key_q ∙ k_) val_q (
          From-rehead rest at_q next_q good_q
            (λ r j. o.others r (has-ne r q (addresses es) j d.1.0))))
  From-overwrite {key} f (more {p} {q} {k} {v = u} {n} {es} at good e ne k_ v_ rest)
        (at_skip {s = t} lt a) d o =
      rw (ne→== k key (omega arith), le→ltb key k (omega arith))
        (more (o.others p (ne-hit q (addresses es) (At-hit-mem a) d.0) ∙ at) good e ne k_ v_
          (From-overwrite f rest a d.1 o))

  -- The node `t` behind `s` is bypassed.
  pub record Bypassed (s t : Ptr) : Type 0 where
    pub before :
        (n m : Node)
        → h s ≡ some n
        → h t ≡ some m
        → (k : Node) × (h' s ≡ some k) × (k.key ≡ n.key) × (k.val ≡ n.val) × (k.next ≡ m.next) × Q k
    pub others : (r : Ptr) → r ≢ s → r ≢ t → h' r ≡ h r

  pub From-erase :
      {key p s t : ℕ} {n : Node} {es : Cells}
      → From Q h p n es
      → At key p es true s t
      → Distinct (p ∷ addresses es)
      → Bypassed s t
      → Still p n (erase key es)
  unfolding erase
  From-erase (last at good e) a d b = elim a [ ]
  From-erase {key} (more {p} {q} {k} {v = u} {n} {es} at good e ne k_ v_ rest) (at_hit hit) d b =
      let (m, at_p, key_p, val_p, next_p, good_p) = b.before n _ at (From-head rest).0 in
      rw (eq→== k key hit) (
        m,
        key_p,
        val_p,
        From-rehead rest at_p next_p good_p (λ r j.
            b.others r (has-ne r p (addresses es) j (ground arith))
              (has-ne r q (addresses es) j d.1.0)),
      )
  From-erase {key} (more {p} {q} {k} {v = u} {n} {es} at good e ne k_ v_ rest)
        (at_skip {r = s} {s = t} lt a) d b =
      let (m, key_m, val_m, tail) = From-erase rest a d.1 b in
      rw (ne→== k key (omega arith)) (
        n,
        refl,
        refl,
        more
            (b.others p (λ x. has-ne s p (q ∷ addresses es) (At-mem a) d.0 (sym x))
                (ne-hit q (addresses es) (At-hit-mem a) d.0)
              ∙ at)
            good e ne (key_m ∙ k_) (val_m ∙ v_) tail,
      )
