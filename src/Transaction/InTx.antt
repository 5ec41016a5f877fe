-- ===== src/Transaction/InTx.antt =====
-- TX.h with datatypes/LinkedList.h: what a transaction that runs knows between two calls, and what a
-- call leaves, when no other thread acts meanwhile.
use transactional_data_struc.Base.{
  ℕ, ◌≤◌, ◌<◌, true, false, Option, [], ◌≡◌, ◌⊎◌, refl, sym, ◌∙◌, ap, length, inl, inr,
  Option-cases, is_some,
}
use transactional_data_struc.Effect.{ok}
use transactional_data_struc.Memory.Storage.{Local, read_set_emplace}
use transactional_data_struc.Memory.Solo.{Memory}
use transactional_data_struc.Index.{IndexOps}
use transactional_data_struc.Index.Laws.{IndexLaws}
use transactional_data_struc.Chain.Spec.{
  Cells, lookup, insert, address, address-absent, address-bound,
}
use transactional_data_struc.LinkedList.{LinkedList}
use transactional_data_struc.LinkedList.Tx.{put}
use transactional_data_struc.LinkedList.Overlay.Search.{Views}
use transactional_data_struc.LinkedList.Overlay.Get.{Got}
use transactional_data_struc.LinkedList.Overlay.Insert.{Becomes, own_val, put-insert}
use transactional_data_struc.Transaction.Program.{Map}
use transactional_data_struc.Chain.Meaning.{Reads}

module _ (X : IndexOps) (laws : IndexLaws X) (list : LinkedList) where
  -- A transaction that runs since the clock showed its read version, and sees `es` over `bs`.
  pub record InTx (w : Memory X.State) (bs es : Cells) : Type 0 where
    pub views : Views X laws list w bs es
    pub running : w.local.tx ≡ true
    pub started : w.local.read_version ≡ w.shared.gvc
    pub reads :
        (w.local.read_only ≡ false) ⊎ ((w.local.read_only ≡ true) × (w.local.write_set ≡ []))

  -- What a call leaves.
  pub record After (w v : Memory X.State) (bs : Cells) (n : ℕ) (m : Map) : Type 0 where
    pub cells : Cells
    pub in_tx : InTx v bs cells
    pub meaning : Reads cells m
    pub size : length cells ≤ n
    pub gvc : v.shared.gvc ≡ w.shared.gvc
    pub retired : v.shared.retired ≡ w.shared.retired

  Becomes-InTx :
      (w v : Memory X.State) (bs es ds : Cells)
      → InTx w bs es
      → Becomes X laws list w v bs ds
      → InTx v bs ds
  Becomes-InTx w v bs es ds t b = record {
    views = b.views;
    running = b.running ∙ t.running;
    started = b.version ∙ t.started ∙ sym b.gvc;
    reads = inl b.writes;
  }

  pub Becomes-After :
      (w v : Memory X.State) (bs es ds : Cells) (n : ℕ) (m : Map)
      → InTx w bs es
      → Becomes X laws list w v bs ds
      → Reads ds m
      → length ds ≤ n
      → After w v bs n m
  Becomes-After w v bs es ds n m t b r size = record {
    cells = ds;
    in_tx = Becomes-InTx w v bs es ds t b;
    meaning = r;
    size = size;
    gvc = b.gvc;
    retired = b.retired;
  }

  pub Got-After :
      (w v : Memory X.State) (bs es : Cells) (key n : ℕ) (m : Map)
      → InTx w bs es
      → Got X laws list w v bs es key
      → Reads es m
      → length es ≤ n
      → After w v bs n m
  unfolding read_set_emplace
  Got-After w v bs es key n m t g r size = record {
    cells = es;
    in_tx = record {
      views = g.views;
      running = ap (λ (l : Local). l.tx) g.local ∙ t.running;
      started = ap (λ (l : Local). l.read_version) g.local ∙ t.started ∙ sym g.gvc;
      reads = elim t.reads [
        | inl e ↦ inl (ap (λ (l : Local). l.read_only) g.local ∙ e)
        | inr (e, empty) ↦ inr (
          ap (λ (l : Local). l.read_only) g.local ∙ e,
          ap (λ (l : Local). l.write_set) g.local ∙ empty,
        )
      ];
    };
    meaning = r;
    size = size;
    gvc = g.gvc;
    retired = g.retired;
  }

  pub put_answer :
      (w : Memory X.State) (bs es : Cells) (key : ℕ) (m : Map)
      → Views X laws list w bs es
      → Reads es m
      → is_some (own_val w.shared.heap (address key es)) ≡ is_some (m key)
  put_answer w bs es key m v r = elim (Option-cases (lookup key es)) [
    | inl new ↦ rw (address-absent key es new, sym (r key), new)
    | inr (u, old) ↦
        let (p, here, i) = address-bound key es old in rw (here, sym (r key), old) (v.valued p i)
  ]

  -- `put` in a transaction that runs.
  pub record Placed (w v : Memory X.State) (bs es : Cells) (key val : ℕ) (a : Option ℕ)
      : Type 0 where
    pub in_tx : InTx v bs (insert w.shared.fresh key val es)
    pub answer : is_some a ≡ is_some (lookup key es)
    pub gvc : v.shared.gvc ≡ w.shared.gvc

  pub put-Placed :
      (fuel key val : ℕ) (w : Memory X.State) (bs es : Cells)
      → InTx w bs es
      → length bs < fuel
      → length es < fuel
      → (a : Option ℕ) × (v : Memory X.State) × (put X list fuel key val w [] ≡ ok a v [])
        × Placed w v bs es key val a
  put-Placed fuel key val w bs es t lt_bs lt =
      let (v, run, b) = put-insert X laws list fuel key val w bs es t.running t.views lt_bs lt in
      (
        own_val w.shared.heap (address key es),
        v,
        run,
        record {
          in_tx = Becomes-InTx w v bs es (insert w.shared.fresh key val es) t b;
          answer = put_answer w bs es key (λ k. lookup k es) t.views (λ k. refl);
          gvc = b.gvc;
        },
      )
