-- ===== src/Transaction/Rollback.antt =====
-- TX.h: `handle_abort`, when no other thread acts meanwhile.
use transactional_data_struc.Base.{ℕ, ◌≡◌, ◌∙◌, sym, ap, List, [], ◌∷◌, ◌++◌}
use mathlib.Core.List.{append-nil, append_assoc}
use transactional_data_struc.Effect.{ok}
use transactional_data_struc.Memory.{Ptr, retire_node}
use transactional_data_struc.Memory.Storage.{clear}
use transactional_data_struc.Memory.Solo.{Memory}
use transactional_data_struc.Transaction.{for_each, handle_abort}
use transactional_data_struc.Transaction.IndexUpdate.{vectors}

module _ {I : Type 0} where
  abbrev pub retiring : Memory I → List Ptr → Memory I
  retiring w ps = record w { shared = record w.shared { retired = w.shared.retired ++ ps } }

  pub retiring-both :
      (w : Memory I) (ps qs : List Ptr) → retiring (retiring w ps) qs ≡ retiring w (ps ++ qs)
  retiring-both w ps qs =
      ap (λ rs. record w { shared = record w.shared { retired = rs } })
        (append_assoc w.shared.retired ps qs)

  pub retiring-none : (w : Memory I) → retiring w [] ≡ w
  retiring-none w =
      ap (λ rs. record w { shared = record w.shared { retired = rs } })
        (append-nil w.shared.retired)

  retire_each-run :
      (ps : List Ptr) (w : Memory I) → for_each retire_node ps w [] ≡ ok tt (retiring w ps) []
  unfolding retire_node
  retire_each-run [] w = ap (λ v. ok tt v []) (sym (retiring-none w))
  retire_each-run (p ∷ ps) w =
      retire_each-run ps (retiring w (p ∷ [])) ∙ ap (λ v. ok tt v []) (retiring-both w (p ∷ []) ps)

  retire_vectors-run :
      (m : List (ℕ × List Ptr)) (w : Memory I)
      → for_each (λ e. for_each retire_node e.1) m w [] ≡ ok tt (retiring w (vectors m)) []
  retire_vectors-run [] w = ap (λ v. ok tt v []) (sym (retiring-none w))
  retire_vectors-run ((list, ps) ∷ m) w =
      rw (retire_each-run ps w, retire_vectors-run m (retiring w ps))
        (ap (λ v. ok tt v []) (retiring-both w ps (vectors m)))

  -- The loops of `handle_abort` in one step.
  pub handle_abort-run :
      (w : Memory I)
      → handle_abort w []
        ≡ ok tt (record (retiring w (vectors w.local.index_add)) { local = clear w.local }) []
  unfolding handle_abort
  handle_abort-run w = rw (retire_vectors-run w.local.index_add w)
