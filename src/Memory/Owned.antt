-- ===== src/Memory/Owned.antt =====
-- Commands on nodes that the other threads leave alone: whatever else they do between the accesses,
-- what such a command does to these nodes is as if it ran by itself.
use transactional_data_struc.Base.{
  ℕ, true, Option, some, List, [], ◌∷◌, ◌≡◌, refl, sym, ◌∙◌, has, update, update_self, update_ne,
  eq→==,
}
use native.Mathlib.Decide.{ℕ_discrete}
use transactional_data_struc.Effect.{Schedule, ok, pure, ◌>>=◌}
use transactional_data_struc.Memory.{Ptr, Node, Heap, Shared, Op, load, store, compare_exchange}
use transactional_data_struc.Memory.Nodes.{write_locked}
use transactional_data_struc.Memory.Nodes
use transactional_data_struc.Memory.Solo.{Memory}
use transactional_data_struc.Node.Word

-- Two heaps agree on some nodes.
abbrev pub Agree : List Ptr → Heap → Heap → Type 0
Agree ps g h = (q : Ptr) → has q ps ≡ true → h q ≡ g q

Agree-update :
    (ps : List Ptr) (g h : Heap) (p : Ptr) (o : Option Node)
    → Agree ps g h
    → Agree ps (update g p o) (update h p o)
Agree-update ps g h p o agree q i = elim (ℕ_discrete q p) [
  | yes e ↦ rw e (update_self h p o ∙ sym (update_self g p o))
  | no ne ↦ update_ne h p o q ne ∙ agree q i ∙ sym (update_ne g p o q ne)
]

module _ {I : Type 0} where
  -- A move of the other threads that leaves these nodes alone.
  abbrev pub Spares : List Ptr → (Shared I → Shared I) → Type 0
  Spares ps e = (h : Shared I) → Agree ps h.heap (e h).heap

  abbrev pub AllSpare : List Ptr → Schedule (Shared I) → Type 0
  AllSpare ps [] = Unit
  AllSpare ps (e ∷ es) = Spares ps e × AllSpare ps es

  -- From nodes as in `g`, the command answers `a` and leaves them as in `g'`.
  pub record Owns (ps : List Ptr) {A : Type 0} (c : Op I A) (a : A) (g' : Heap) (w : Memory I)
      (es : Schedule (Shared I)) : Type 0 where
    pub next : Memory I
    pub rest : Schedule (Shared I)
    pub run : c w es ≡ ok a next rest
    pub nodes : Agree ps g' next.shared.heap
    pub spare : AllSpare ps rest
    pub local : next.local ≡ w.local

  abbrev pub Triple : List Ptr → Heap → {A : Type 0} → Op I A → A → Heap → Type 0
  Triple ps g c a g' =
      (w : Memory I) (es : Schedule (Shared I))
      → Agree ps g w.shared.heap
      → AllSpare ps es
      → Owns ps c a g' w es

  pub pure-Triple : {A : Type 0} (ps : List Ptr) (g : Heap) (a : A) → Triple ps g (pure a) a g
  pure-Triple ps g a w es agree spare = record {
    next = w;
    rest = es;
    run = refl;
    nodes = agree;
    spare = spare;
    local = refl;
  }

  pub bind-Triple :
      {A B : Type 0} {ps : List Ptr} {g g1 g2 : Heap} {c : Op I A} {a : A} (k : A → Op I B) {b : B}
      → Triple ps g c a g1
      → Triple ps g1 (k a) b g2
      → Triple ps g (c >>= k) b g2
  bind-Triple k first second w es agree spare =
      let o = first w es agree spare in
      let o2 = second o.next o.rest o.nodes o.spare in
      record {
        next = o2.next;
        rest = o2.rest;
        run = rw o.run o2.run;
        nodes = o2.nodes;
        spare = o2.spare;
        local = o2.local ∙ o.local;
      }

  -- One access that reads an own node.
  pub load-Triple :
      (ps : List Ptr) (g : Heap) (p : Ptr) {n : Node}
      → has p ps ≡ true
      → g p ≡ some n
      → Triple ps g (load p) n g
  load-Triple ps g p mine at w [] agree spare = record {
    next = w;
    rest = [];
    run = rw (agree p mine ∙ at);
    nodes = agree;
    spare = tt;
    local = refl;
  }
  load-Triple ps g p mine at w (e ∷ es) agree spare =
      let agree' : Agree ps g (e w.shared).heap = λ q i. spare.0 w.shared q i ∙ agree q i in
      record {
        next = record w { shared = e w.shared };
        rest = es;
        run = rw (agree' p mine ∙ at);
        nodes = agree';
        spare = spare.1;
        local = refl;
      }

  pub store-Triple :
      (ps : List Ptr) (g : Heap) (p : Ptr) (f : Node → Node) {n : Node}
      → has p ps ≡ true
      → g p ≡ some n
      → Triple ps g (store p f) tt (update g p (some (f n)))
  store-Triple ps g p f {n} mine at w [] agree spare = record {
    next = record w { shared = record w.shared { heap = update w.shared.heap p (some (f n)) } };
    rest = [];
    run = rw (agree p mine ∙ at);
    nodes = Agree-update ps g w.shared.heap p (some (f n)) agree;
    spare = tt;
    local = refl;
  }
  store-Triple ps g p f {n} mine at w (e ∷ es) agree spare =
      let h = e w.shared in
      let agree' : Agree ps g h.heap = λ q i. spare.0 w.shared q i ∙ agree q i in
      record {
        next = record w { shared = record h { heap = update h.heap p (some (f n)) } };
        rest = es;
        run = rw (agree' p mine ∙ at);
        nodes = Agree-update ps g h.heap p (some (f n)) agree';
        spare = spare.1;
        local = refl;
      }

  -- A setter that asserts the lock, on an own node that is locked.
  pub write_locked-Triple :
      (ps : List Ptr) (g : Heap) (p : Ptr) (f : ℕ → ℕ) {n : Node}
      → has p ps ≡ true
      → g p ≡ some n
      → Word.is_locked n.word ≡ true
      → Triple ps g (write_locked f p) tt (update g p (some (record n { word = f n.word })))
  write_locked-Triple ps g p f {n} mine at held w es agree spare =
      let o = load-Triple ps g p mine at w es agree spare in
      let o2 =
        store-Triple ps g p (λ m. record m { word = f n.word }) mine at o.next o.rest o.nodes
          o.spare in
      record {
        next = o2.next;
        rest = o2.rest;
        run = rw (o.run, held, o2.run);
        nodes = o2.nodes;
        spare = o2.spare;
        local = o2.local ∙ o.local;
      }

  exchange-Triple :
      (ps : List Ptr) (g : Heap) (p : Ptr) (expected desired : ℕ) {n : Node}
      → has p ps ≡ true
      → g p ≡ some n
      → n.word ≡ expected
      → Triple ps g
          (compare_exchange p expected desired)
          true
          (update g p (some (record n { word = desired })))
  exchange-Triple ps g p expected desired {n} mine at same w [] agree spare = record {
    next = record w {
      shared = record w.shared {
        heap = update w.shared.heap p (some (record n { word = desired }));
      };
    };
    rest = [];
    run = rw (agree p mine ∙ at, eq→== n.word expected same);
    nodes = Agree-update ps g w.shared.heap p (some (record n { word = desired })) agree;
    spare = tt;
    local = refl;
  }
  exchange-Triple ps g p expected desired {n} mine at same w (e ∷ es) agree spare =
      let h = e w.shared in
      let agree' : Agree ps g h.heap = λ q i. spare.0 w.shared q i ∙ agree q i in
      record {
        next = record w {
          shared = record h { heap = update h.heap p (some (record n { word = desired })) };
        };
        rest = es;
        run = rw (agree' p mine ∙ at, eq→== n.word expected same);
        nodes = Agree-update ps g h.heap p (some (record n { word = desired })) agree';
        spare = spare.1;
        local = refl;
      }

  -- `unlock` on an own node that is locked: neither assertion fails.
  pub unlock-Triple :
      (ps : List Ptr) (g : Heap) (p : Ptr) {n : Node}
      → has p ps ≡ true
      → g p ≡ some n
      → Word.is_locked n.word ≡ true
      → Triple ps g
          (Nodes.unlock p)
          tt
          (update g p (some (record n { word = Word.unlocked n.word })))
  unfolding Nodes.unlock
  unlock-Triple ps g p {n} mine at held w es agree spare =
      let o = load-Triple ps g p mine at w es agree spare in
      let o2 =
        exchange-Triple ps g p n.word (Word.unlocked n.word) mine at refl o.next o.rest o.nodes
          o.spare in
      record {
        next = o2.next;
        rest = o2.rest;
        run = rw (o.run, held, o2.run);
        nodes = o2.nodes;
        spare = o2.spare;
        local = o2.local ∙ o.local;
      }
