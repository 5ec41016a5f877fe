-- ===== src/Tests/Transaction.antt =====
-- TX.h: a transaction over the list of `Setup` that has read both nodes and overwrites 5 ↦ 51.
use transactional_data_struc.Base.{
  none, ℕ, ◌+◌, ◌≡◌, refl, sym, subst, true, false, some, [], ◌∷◌, ◌==◌, has, update, inl, inr,
  Bool-cases, ==→eq, arith,
}
use transactional_data_struc.Effect.{Schedule, ok, fault}
use transactional_data_struc.Memory.{Ptr, Node, Shared}
use transactional_data_struc.Memory.Storage.{WriteElement, initial}
use transactional_data_struc.Memory.Solo.{Memory, put_node}
use transactional_data_struc.Memory.Nodes
use transactional_data_struc.Node.Word
use transactional_data_struc.Index.Dummy.{DummyIndex, dummy}
use transactional_data_struc.Transaction.{tx_end, validate_node, validate_read_set}
use transactional_data_struc.Transaction.Lock.{IsFree}
use transactional_data_struc.Transaction.Validate.{
  AllPass, validate_read_set-AllPass, validate_node-fault,
}
use transactional_data_struc.Transaction.IndexUpdate.{IsTotal}
use transactional_data_struc.Transaction.Attempt.{IsSettled}
use transactional_data_struc.Transaction.Stamp.{Committed}
use transactional_data_struc.Transaction.End.{IsReadable, CanCommit, tx_end-commit}
use transactional_data_struc.Transaction.Abort.{CanEnd, Ends, tx_end-Ends}
use transactional_data_struc.Index.Laws.{dummy_laws}
use transactional_data_struc.Chain.Spec.{lookup}
use transactional_data_struc.LinkedList.Singleton.{put_singleton}
use transactional_data_struc.LinkedList.Tx.{put_found, current_val}
use transactional_data_struc.LinkedList.Own.{put_found-current_val}
use transactional_data_struc.LinkedList.Unseen.{put_singleton-AllPass}
use transactional_data_struc.Tests.Setup.{list, memory, cells, memory-Holds, heap, head_node, five}

abbrev pub dummy_total : IsTotal dummy
dummy_total = record { add = λ p h i. (i, refl); remove = λ p h i. (i, refl) }

abbrev fifty_one : WriteElement
fifty_one = record { next = 0; val = some 51; deleted = false }

abbrev in_tx : Memory DummyIndex
in_tx = record memory {
  local = record initial {
    tx = true;
    read_only = false;
    read_version = 4;
    write_set = (2, fifty_one) ∷ [];
    read_set = 1 ∷ 2 ∷ [];
  };
}

of_one : (P : ℕ → Type 0) (a p : ℕ) → P a → has p (a ∷ []) ≡ true → P p
of_one P a p x i = subst P (sym (==→eq p a (ground arith))) x

of_two : (P : ℕ → Type 0) (a b p : ℕ) → P a → P b → has p (a ∷ b ∷ []) ≡ true → P p
of_two P a b p x y i = elim (Bool-cases (p == a)) [
  | inl here ↦ subst P (sym (==→eq p a here)) x
  | inr there ↦ of_one P b p y (ground arith)
]

abbrev Is : (Node → Type 0) → Ptr → Type 0
Is P p = (n : Node) × (heap p ≡ some n) × P n

readable : (n : Node) → n.word ≡ 0 → IsReadable 4 n
unfolding Word.is_locked Word.get_version Word.is_singleton
readable n e = ground arith

settled : (n : Node) → n.word ≡ 0 → IsSettled 4 n
unfolding Word.get_version Word.is_singleton
settled n e = ground arith

free : (n : Node) → n.word ≡ 0 → IsFree n
unfolding Word.is_locked
free n e = ground arith

can_commit : CanCommit in_tx
unfolding update
can_commit = record {
  in_tx = refl;
  writes = refl;
  once = (refl, tt);
  written_free = λ p. of_one (Is IsFree) 2 p (five, refl, free five refl);
  readable = λ p.
      of_two (Is (IsReadable 4)) 1 2 p (head_node, refl, readable head_node refl)
        (five, refl, readable five refl);
  older = omega arith;
  room = omega arith;
}

can_end : CanEnd in_tx
unfolding update
can_end = record {
  in_tx = refl;
  once = (refl, tt);
  written = λ p. of_one (Is (λ n. Unit {0})) 2 p (five, refl, tt);
  read = λ p.
      of_two (Is (IsSettled 4)) 1 2 p (head_node, refl, settled head_node refl)
        (five, refl, settled five refl);
  older = omega arith;
  room = omega arith;
}

tx_end-commit_example :
    (v : Memory DummyIndex) × (tx_end dummy in_tx [] ≡ ok true v []) × Committed in_tx v
tx_end-commit_example = tx_end-commit dummy dummy_total in_tx can_commit

tx_end-Ends_example : Ends dummy in_tx
tx_end-Ends_example = tx_end-Ends dummy dummy_total in_tx can_end

-- A singleton operation has written 5 at the read version.
abbrev written_five : Node
written_five = record five { word = 4 + Word.singleton_mask }

abbrev after_singleton : Memory DummyIndex
after_singleton = put_node in_tx 2 written_five

five_at : after_singleton.shared.heap 2 ≡ some written_five
unfolding update
five_at = refl

five-IsFree : IsFree written_five
unfolding Word.is_locked
five-IsFree = refl

five_same : Word.get_version written_five.word ≡ after_singleton.local.read_version
unfolding Word.get_version
five_same = refl

five_single : Word.is_singleton written_five.word ≡ true
unfolding Word.is_singleton
five_single = refl

validates : validate_read_set [] (1 ∷ 2 ∷ []) in_tx [] ≡ ok false in_tx []
unfolding validate_read_set validate_node update Nodes.is_locked Nodes.node_version
    Nodes.is_singleton Word.is_locked Word.get_version Word.is_singleton
validates = refl

abbrev no_moves : Schedule (Shared DummyIndex)
no_moves = []

validate_read_set-AllPass_example :
    AllPass 4 [] heap (1 ∷ 2 ∷ []) × (in_tx ≡ in_tx) × (no_moves ≡ no_moves)
validate_read_set-AllPass_example =
    validate_read_set-AllPass (1 ∷ 2 ∷ []) in_tx in_tx no_moves [] validates

validate_node-fault_example : validate_node [] 2 after_singleton [] ≡ fault
validate_node-fault_example =
    validate_node-fault after_singleton [] 2 five_at refl five-IsFree five_same five_single

all_pass : AllPass 4 [] heap (1 ∷ 2 ∷ [])
all_pass =
    let (passes, _, _) = validate_read_set-AllPass (1 ∷ 2 ∷ []) in_tx in_tx no_moves [] validates in
    passes

seven_absent : lookup 7 cells ≡ none
unfolding lookup
seven_absent = refl

put_singleton-AllPass_example :
    (v : Memory DummyIndex) × (put_singleton dummy list 5 7 70 memory [] ≡ ok none v [])
    × AllPass 4 [] v.shared.heap (1 ∷ 2 ∷ [])
put_singleton-AllPass_example =
    put_singleton-AllPass dummy dummy_laws list 5 7 70 memory cells 4 [] (1 ∷ 2 ∷ []) memory-Holds
      (omega arith) seven_absent refl all_pass

five_there : in_tx.shared.heap 2 ≡ some five
unfolding update
five_there = refl

put_found-current_val_example :
    (v : Memory DummyIndex) × (put_found 52 2 in_tx [] ≡ ok (some 50) v [])
    × (current_val 2 v [] ≡ ok (some 52) v [])
    × (v.shared ≡ in_tx.shared)
put_found-current_val_example = put_found-current_val 52 2 in_tx five_there
