-- ===== src/Transaction/Among.antt =====
-- TX.h: the writes and the unlocking of `TXend` among other threads, which may do anything but change
-- the nodes that the transaction has locked.
use transactional_data_struc.Base.{
  ℕ, true, false, some, List, [], ◌∷◌, ◌≡◌, refl, sym, ◌∙◌, arith, has, Distinct, update, subst, ap,
  map,
}
use transactional_data_struc.Effect.{Schedule, ok, ◌>>◌}
use transactional_data_struc.Memory.{Ptr, Node, Heap, Shared, Op}
use transactional_data_struc.Memory.Nodes
use transactional_data_struc.Memory.Solo.{Memory}
use transactional_data_struc.Memory.Owned.{
  AllSpare, Triple, pure-Triple, bind-Triple, unlock-Triple,
}
use transactional_data_struc.Node.Word
use transactional_data_struc.Transaction.{for_each, commit_node, commit_write_set}
use transactional_data_struc.Transaction.Lock.{
  WriteSet, keys, NodesAre, IsFree, IsHeld, NodesAre-update, reword, reword_at, reword_at-member,
  has-find,
}
use transactional_data_struc.Transaction.Commit.{
  written, write_one, write_all, by_write_set, write_all-by_write_set, written_word-is_locked,
}
use transactional_data_struc.Transaction.OwnNode.{commit_node-Triple}

module _ {I : Type 0} (ps : List Ptr) (version : ℕ) where
  commit_write_set-Triple :
      (ws : WriteSet) (g : Heap)
      → Distinct (keys ws)
      → ((q : Ptr) → has q (keys ws) ≡ true → has q ps ≡ true)
      → NodesAre IsHeld g (keys ws)
      → Triple {I = I} ps g (commit_write_set version ws) tt (write_all version g ws)
  unfolding commit_write_set
  commit_write_set-Triple [] g d mine held = pure-Triple ps g tt
  commit_write_set-Triple ((p, we) ∷ ws) g d mine held =
      let (n, at, shut) = held p (ground arith) in
      let g1 = update g p (some (written version we n)) in
      bind-Triple (λ _. for_each (commit_node version) ws)
        (commit_node-Triple ps version g p we (mine p (ground arith)) at shut)
        (subst
          (λ o.
            Triple {I = I} ps g1 (for_each (commit_node version) ws) tt
              (write_all version (update g p (write_one version we o)) ws))
          (sym at)
          (commit_write_set-Triple ws g1 d.1 (λ q i. mine q (ground arith))
            (NodesAre-update IsHeld g (some (written version we n)) p (keys ws) d.0
              (λ q i. held q (ground arith)))))

  unlock_all-Triple :
      (rs : List Ptr) (g : Heap)
      → Distinct rs
      → ((q : Ptr) → has q rs ≡ true → has q ps ≡ true)
      → NodesAre IsHeld g rs
      → Triple {I = I} ps g (for_each Nodes.unlock rs) tt (reword_at Word.unlocked g rs)
  unlock_all-Triple [] g d mine held = pure-Triple ps g tt
  unlock_all-Triple (p ∷ rs) g d mine held =
      let (n, at, shut) = held p (ground arith) in
      let free : Node = record n { word = Word.unlocked n.word } in
      bind-Triple (λ _. for_each Nodes.unlock rs)
        (unlock-Triple ps g p (mine p (ground arith)) at shut)
        (subst
          (λ o.
            Triple {I = I} ps (update g p (some free)) (for_each Nodes.unlock rs) tt
              (reword_at Word.unlocked (update g p (reword Word.unlocked o)) rs))
          (sym at)
          (unlock_all-Triple rs (update g p (some free)) d.1 (λ q i. mine q (ground arith))
            (NodesAre-update IsHeld g (some free) p rs d.0 (λ q i. held q (ground arith)))))

-- The writes of a commit, and the unlocking of what has been written.
abbrev pub write_and_unlock : {I : Type 0} → ℕ → WriteSet → Op I (Unit {0})
write_and_unlock version ws = commit_write_set version ws >> for_each Nodes.unlock (keys ws)

-- What such a write leaves at an address.
abbrev pub published : ℕ → WriteSet → Heap → Heap
published version ws h q = reword Word.unlocked (by_write_set version ws q (h q))

map-agree :
    (f g : Heap) (ps : List Ptr) → ((q : Ptr) → has q ps ≡ true → f q ≡ g q) → map f ps ≡ map g ps
map-agree f g [] same = refl
map-agree f g (p ∷ ps) same =
    rw (same p (ground arith), map-agree f g ps (λ q i. same q (ground arith)))

write_all-IsHeld :
    (v : ℕ) (g : Heap) (ws : WriteSet)
    → Distinct (keys ws)
    → NodesAre IsHeld g (keys ws)
    → NodesAre IsHeld (write_all v g ws) (keys ws)
write_all-IsHeld v g ws d held p i =
    let (n, at, shut) = held p i in
    let (we, e) = has-find ws p i in
    (
      written v we n,
      write_all-by_write_set v g ws p d ∙ ground (arith, e, at),
      written_word-is_locked v n.word we shut,
    )

unlocked-is_locked : (l : ℕ) → Word.is_locked (Word.unlocked l) ≡ false
unfolding Word.is_locked Word.unlocked
unlocked-is_locked l = ground arith

-- The writes of a commit and the unlocking of the nodes, which the transaction has locked and
-- has once each in its write set, run to their end whatever the other threads do between the
-- accesses, as long as they do not change these nodes: no assertion fails, each node is as the
-- write set says, with the new version and unlocked, its lock bit is clear, and the local
-- storage is as before.
pub write_and_unlock-Written :
    {I : Type 0} (version : ℕ) (ws : WriteSet) (w : Memory I) (es : Schedule (Shared I))
    → Distinct (keys ws)
    → NodesAre IsHeld w.shared.heap (keys ws)
    → AllSpare (keys ws) es
    → (v : Memory I) × (ds : Schedule (Shared I)) × (write_and_unlock version ws w es ≡ ok tt v ds)
      × (map v.shared.heap (keys ws) ≡ map (published version ws w.shared.heap) (keys ws))
      × NodesAre IsFree v.shared.heap (keys ws)
      × (v.local ≡ w.local)
write_and_unlock-Written version ws w es d held spare =
    let h = w.shared.heap in
    let g = write_all version h ws in
    let o =
      bind-Triple (λ _. for_each Nodes.unlock (keys ws))
        (commit_write_set-Triple (keys ws) version ws h d (λ q i. i) held)
        (unlock_all-Triple (keys ws) version (keys ws) g d (λ q i. i)
          (write_all-IsHeld version h ws d held))
        w es (λ q i. refl) spare in
    (
      o.next,
      o.rest,
      o.run,
      map-agree o.next.shared.heap (published version ws h) (keys ws) λ q i.
          o.nodes q i
          ∙ reword_at-member Word.unlocked g (keys ws) q d i
          ∙ ap (reword Word.unlocked) (write_all-by_write_set version h ws q d),
      λ p i.
          let (n, at, _) = write_all-IsHeld version h ws d held p i in
          (
            record n { word = Word.unlocked n.word },
            o.nodes p i
                ∙ reword_at-member Word.unlocked g (keys ws) p d i
                ∙ ap (reword Word.unlocked) at,
            unlocked-is_locked n.word,
          ),
      o.local,
    )
