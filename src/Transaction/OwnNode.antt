-- ===== src/Transaction/OwnNode.antt =====
-- TX.h: what `TXend` writes for one node of its write set, which it has locked, among other threads
-- that leave the node alone.
use transactional_data_struc.Base.{
  ℕ, true, false, none, some, List, ◌≡◌, sym, ◌∙◌, has, update, update_self, update-update,
  Bool-cases, inl, inr, subst, ap, if◌then◌else◌,
}
use transactional_data_struc.Effect.{pure, ◌>>◌}
use transactional_data_struc.Memory.{Ptr, Node, Heap, Op}
use transactional_data_struc.Memory.Storage.{WriteElement}
use transactional_data_struc.Memory.Nodes
use transactional_data_struc.Memory.Owned.{
  Triple, pure-Triple, bind-Triple, store-Triple, write_locked-Triple,
}
use transactional_data_struc.Node.Word
use transactional_data_struc.LinkedList.Singleton.{store_next, store_val}
use transactional_data_struc.Transaction.{commit_node}
use transactional_data_struc.Transaction.Commit.{written, held-set_deleted, held-set_version}

-- A node with the value and the pointer of the write set, and one that it deletes.
abbrev filled : WriteElement → Node → Node
filled we n = record n { next = we.next; val = we.val }

abbrev dropped : WriteElement → Node → Node
dropped we n = record n { next = we.next; val = none; word = Word.set_deleted true n.word }

module _ {I : Type 0} (ps : List Ptr) (version : ℕ) where
  -- The last two writes for a node.
  abbrev stamp : Ptr → Op I (Unit {0})
  stamp p = Nodes.set_version p version >> Nodes.set_singleton p false

  stamp-Triple :
      (g : Heap) (p : Ptr) {n : Node}
      → has p ps ≡ true
      → g p ≡ some n
      → Word.is_locked n.word ≡ true
      → Triple ps g (stamp p) tt (
          update g p
            (some (record n { word = Word.set_singleton false (Word.set_version version n.word) })))
  unfolding Nodes.set_version Nodes.set_singleton
  stamp-Triple g p {n} mine at held =
      let versioned = update g p (some (record n { word = Word.set_version version n.word })) in
      subst (λ h. Triple ps g (stamp p) tt h) (update-update g p _ _)
        (bind-Triple (λ _. Nodes.set_singleton p false)
          (write_locked-Triple ps g p (Word.set_version version) mine at held)
          (write_locked-Triple ps versioned p (Word.set_singleton false) mine
            (update_self g p (some (record n { word = Word.set_version version n.word })))
            (held-set_version n.word version held)))

  abbrev drop : Ptr → Op I (Unit {0})
  drop p = Nodes.set_deleted p true >> store_val p none

  fill-Triple :
      (g g' : Heap) (p : Ptr) (we : WriteElement) (rest : Op I (Unit {0})) {n : Node}
      → has p ps ≡ true
      → g p ≡ some n
      → Triple ps (update g p (some (filled we n))) rest tt g'
      → Triple ps g (store_next p we.next >> (store_val p we.val >> rest)) tt g'
  fill-Triple g g' p we rest {n} mine at then_rest =
      let pointed = update g p (some (record n { next = we.next })) in
      bind-Triple (λ _. store_val p we.val >> rest)
        (store-Triple ps g p (λ k. record k { next = we.next }) mine at)
        (bind-Triple (λ _. rest)
          (store-Triple ps pointed p (λ k. record k { val = we.val }) mine
            (update_self g p (some (record n { next = we.next }))))
          (subst (λ h. Triple ps h rest tt g')
            (sym (update-update g p (some (record n { next = we.next })) (some (filled we n))))
            then_rest))

  drop-Triple :
      (g : Heap) (p : Ptr) (we : WriteElement) (n : Node)
      → has p ps ≡ true
      → Word.is_locked n.word ≡ true
      → Triple ps (update g p (some (filled we n))) (drop p) tt (update g p (some (dropped we n)))
  unfolding Nodes.set_deleted
  drop-Triple g p we n mine held =
      let g1 = update g p (some (filled we n)) in
      let o2 = some (record (filled we n) { word = Word.set_deleted true n.word }) in
      subst (λ h. Triple ps g1 (drop p) tt h)
        (update-update g1 p o2 (some (dropped we n)) ∙ update-update g p _ (some (dropped we n)))
        (bind-Triple (λ _. store_val p none)
          (write_locked-Triple ps g1 p (Word.set_deleted true) mine
            (update_self g p (some (filled we n))) held)
          (store-Triple ps (update g1 p o2) p (λ k. record k { val = none }) mine
            (update_self g1 p o2)))

  finish-Triple :
      (g : Heap) (p : Ptr) (n m : Node)
      → has p ps ≡ true
      → Word.is_locked n.word ≡ true
      → record n { word = Word.set_singleton false (Word.set_version version n.word) } ≡ m
      → Triple ps (update g p (some n)) (stamp p) tt (update g p (some m))
  finish-Triple g p n m mine held e =
      subst (λ h. Triple ps (update g p (some n)) (stamp p) tt h)
        (update-update g p (some n) _ ∙ ap (λ x. update g p (some x)) e)
        (stamp-Triple (update g p (some n)) p mine (update_self g p (some n)) held)

  pub commit_node-Triple :
      (g : Heap) (p : Ptr) (we : WriteElement) {n : Node}
      → has p ps ≡ true
      → g p ≡ some n
      → Word.is_locked n.word ≡ true
      → Triple {I = I} ps g
          (commit_node version (p, we))
          tt
          (update g p (some (written version we n)))
  unfolding commit_node
  commit_node-Triple g p we {n} mine at held = elim (Bool-cases we.deleted) [
    | inl gone ↦
        subst
          (λ d.
            Triple {I = I} ps g
              (store_next p we.next
                >> (store_val p we.val >> ((if d then drop p else pure tt) >> stamp p)))
              tt (update g p (some (written version we n))))
          (sym gone)
          (fill-Triple g (update g p (some (written version we n))) p we (drop p >> stamp p) mine at
            (bind-Triple (λ _. stamp p) (drop-Triple g p we n mine held)
              (finish-Triple g p (dropped we n) (written version we n) mine
                (held-set_deleted n.word true held) (rw gone))))
    | inr kept ↦
        subst
          (λ d.
            Triple {I = I} ps g
              (store_next p we.next
                >> (store_val p we.val >> ((if d then drop p else pure tt) >> stamp p)))
              tt (update g p (some (written version we n))))
          (sym kept)
          (fill-Triple g (update g p (some (written version we n))) p we (pure tt >> stamp p) mine
            at
            (bind-Triple (λ _. stamp p) (pure-Triple ps (update g p (some (filled we n))) tt)
              (finish-Triple g p (filled we n) (written version we n) mine held (rw kept))))
  ]
