-- ===== src/Memory/Manager/Same.antt =====
-- nodes/record_mgr.h: the two variants of `get_new_node` give the same node.
use transactional_data_struc.Base.{
  ℕ, ◌+◌, true, some, [], ◌∷◌, ◌≡◌, refl, sym, ◌∙◌, has, update, update_self, update-update, arith,
  subst, ap,
}
use transactional_data_struc.Effect.{Schedule, ok, pure, ◌>>=◌}
use transactional_data_struc.Memory.{Ptr, null, Node, Heap, Shared, Op, store}
use transactional_data_struc.Memory
use transactional_data_struc.Memory.Solo.{Memory}
use transactional_data_struc.Memory.Owned.{
  AllSpare, Owns, Triple, pure-Triple, bind-Triple, store-Triple,
}
use transactional_data_struc.Memory.Manager.{
  RecordMgr, default_node, new_default, get_key_node, get_new_node,
}

abbrev pub filled : ℕ → ℕ → Node
filled key val = record { key = key; val = some val; next = null; word = 0 }

module _ {I : Type 0} where
  -- The two writes to a new node.
  abbrev fill : Ptr → ℕ → ℕ → Op I Ptr
  fill p key val = do
    q ← (do _ ← store p (λ n. record n { key = key }); pure p)
    _ ← store q (λ n. record n { val = some val })
    pure q

  fill-Triple :
      (p : Ptr) (key val : ℕ) (g : Heap)
      → g p ≡ some default_node
      → Triple {I = I} (p ∷ []) g (fill p key val) p (update g p (some (filled key val)))
  fill-Triple p key val g at =
      let keyed : Node = record default_node { key = key } in
      let mine : has p (p ∷ []) ≡ true = ground arith in
      bind-Triple (λ q. do _ ← store q (λ n. record n { val = some val }); pure q)
        (bind-Triple (λ _. pure p) (store-Triple (p ∷ []) g p (λ n. record n { key = key }) mine at)
          (pure-Triple (p ∷ []) (update g p (some keyed)) p))
        (bind-Triple (λ _. pure p)
          (store-Triple (p ∷ []) (update g p (some keyed)) p (λ n. record n { val = some val }) mine
            (update_self g p (some keyed)))
          (subst (λ h. Triple {I = I} (p ∷ []) h (pure p) p (update g p (some (filled key val))))
            (sym (update-update g p (some keyed) (some (filled key val))))
            (pure-Triple (p ∷ []) (update g p (some (filled key val))) p)))

  module _ (r : RecordMgr I) (allocates : r.manager.allocate r.tid ≡ new_default)
      (key val : ℕ) where
    alone : (w : Memory I) → get_new_node r key val w [] ≡ Memory.get_new_node key val w []
    unfolding get_new_node get_key_node Memory.get_new_node
    alone w =
        let h = w.shared in
        rw (allocates, update_self, update_self)
          (ap
            (λ x. ok h.fresh (record w { shared = record h { heap = x; fresh = h.fresh + 1 } }) [])
            (update-update (update h.heap h.fresh (some default_node)) h.fresh _ _
              ∙ update-update h.heap h.fresh _ _))

    -- With a record manager that allocates a node by its default constructor at a new address,
    -- get_new_node of the DEBRA variant runs as that of the other variant does when no other
    -- thread acts; and whatever other threads do, as long as they leave the new node alone, it
    -- ends with a node that has the key and the value, no successor and an unlocked word of
    -- version 0.
    pub get_new_node-same :
        (w : Memory I) (e : Shared I → Shared I) (es : Schedule (Shared I))
        → AllSpare ((e w.shared).fresh ∷ []) es
        → (get_new_node r key val w [] ≡ Memory.get_new_node key val w [])
          × (v : Memory I) × (ds : Schedule (Shared I)) × (get_new_node r key val w (e ∷ es)
              ≡ ok (e w.shared).fresh v ds)
          × (v.shared.heap (e w.shared).fresh ≡ some (filled key val))
          × (v.local ≡ w.local)
    unfolding get_new_node get_key_node
    get_new_node-same w e es spare =
        let h = e w.shared in
        let g = update h.heap h.fresh (some default_node) in
        let o : Owns (h.fresh ∷ []) (fill h.fresh key val) h.fresh
            (update g h.fresh (some (filled key val)))
            (record w { shared = record h { heap = g; fresh = h.fresh + 1 } }) es =
          fill-Triple h.fresh key val g (update_self h.heap h.fresh (some default_node))
            (record w { shared = record h { heap = g; fresh = h.fresh + 1 } }) es (λ q i. refl)
            spare in
        (
          alone w,
          o.next,
          o.rest,
          rw allocates o.run,
          o.nodes h.fresh (ground arith) ∙ update_self g h.fresh (some (filled key val)),
          o.local,
        )
