-- ===== src/DiffAssembler/Batches.antt =====
-- model/diff/diff_assembler.cpp: the diffs are chained in order, with an interrupt after each batch.
use syncspirit.Prelude.{
  ℕ, ◌+◌, ◌-◌, ◌<◌, ◌≡◌, refl, sym, ap, subst, true, false, List, [], ◌∷◌, ◌++◌, Option, none, some,
  if◌then◌else◌, ◌==◌, length, arith, Bool-cases, inl, inr,
}
use mathlib.Core.List.{append_assoc}
use syncspirit.DiffAssembler.{
  Node, diff, interrupt, Chain, nodes, Assembler, make, append_to, attach, interrupt_back,
  finish_back, push_back, push_all,
}

-- The chain by what is left of the batch.
unfoldable pub batches : (batch_limit left : ℕ) → List Chain → List Node
batches batch_limit left [] = []
batches batch_limit left (chain ∷ chains) =
    nodes chain
    ++ (if left == 1
        then interrupt ∷ batches batch_limit batch_limit chains
        else batches batch_limit (left - 1) chains)

-- An assembler of which `next` is the last node.
abbrev at_end : ℕ → ℕ → ℕ → List Node → Assembler
at_end batch_limit left total root = record {
  batch_limit = batch_limit;
  left = left;
  total = total;
  root = root;
  next = some 0;
}

push_back-at_end :
    (chain : Chain) (batch_limit left total : ℕ) (root : List Node)
    → push_back chain (at_end batch_limit left total root)
      ≡ some (
          if left - 1 == 0
          then (
            at_end batch_limit batch_limit (total + 1) ((root ++ nodes chain) ++ (interrupt ∷ [])),
            true,
          )
          else (at_end batch_limit (left - 1) (total + 1) (root ++ nodes chain), false))
unfolding push_back attach append_to finish_back interrupt_back
push_back-at_end chain batch_limit left total root = elim (Bool-cases (left - 1 == 0)) [
  | inl full ↦ rw (push_back, full) refl
  | inr room ↦ rw (push_back, room) refl
]

-- The calls succeed, and the chain is this one.
abbrev pub HasRoot : List Node → Option Assembler → Type 0
HasRoot root none = ⊥
HasRoot root (some s) = s.root ≡ root

push_all-at_end :
    (chains : List Chain) (batch_limit left total : ℕ) (root : List Node)
    → 0 < left
    → 0 < batch_limit
    → HasRoot
        (root ++ batches batch_limit left chains)
        (push_all chains (at_end batch_limit left total root))
unfolding push_all batches
push_all-at_end [] batch_limit left total root h k = sym (append_nil root)
  where
    append_nil : (xs : List Node) → xs ++ [] ≡ xs
    append_nil [] = refl
    append_nil (x ∷ xs) = ap (λ l. x ∷ l) (append_nil xs)
push_all-at_end (chain ∷ chains) batch_limit left total root h k =
    elim (Bool-cases (left - 1 == 0)) [
      | inl full ↦
          let one : (left == 1) ≡ true = ground arith in
          let grown = (root ++ nodes chain) ++ (interrupt ∷ []) in
          let assoc : grown ++ batches batch_limit batch_limit chains
              ≡ root ++ (nodes chain ++ interrupt ∷ batches batch_limit batch_limit chains) =
            simp append_assoc in
          rw (push_all, push_back-at_end chain batch_limit left total root, full, one)
            (subst
              (λ l. HasRoot l (push_all chains (at_end batch_limit batch_limit (total + 1) grown)))
              assoc (push_all-at_end chains batch_limit batch_limit (total + 1) grown k k))
      | inr room ↦
          let more : (left == 1) ≡ false = ground arith in
          let grown = root ++ nodes chain in
          let assoc : grown ++ batches batch_limit (left - 1) chains
              ≡ root ++ (nodes chain ++ batches batch_limit (left - 1) chains) =
            simp append_assoc in
          let positive : 0 < left - 1 = ground arith in
          rw (push_all, push_back-at_end chain batch_limit left total root, room, more)
            (subst
              (λ l. HasRoot l (push_all chains (at_end batch_limit (left - 1) (total + 1) grown)))
              assoc (push_all-at_end chains batch_limit (left - 1) (total + 1) grown positive k))
    ]

-- Diffs pushed to the back, of which the first has no siblings, are chained in the order of the calls,
-- each with its siblings, and behind each `batch_limit` of them stands an interrupt.
pub push_all-HasRoot :
    (batch_limit first : ℕ) (chains : List Chain)
    → 1 < batch_limit
    → HasRoot
        (batches batch_limit batch_limit (record { first = first; siblings = [] } ∷ chains))
        (push_all (record { first = first; siblings = [] } ∷ chains) (make batch_limit))
unfolding push_all push_back attach finish_back batches
push_all-HasRoot batch_limit first chains h =
    let room : (batch_limit - 1 == 0) ≡ false = ground arith in
    let more : (batch_limit == 1) ≡ false = ground arith in
    rw (push_all, room, more)
      (push_all-at_end chains batch_limit (batch_limit - 1) 1 (diff first ∷ []) (omega (arith, h))
        (omega (arith, h)))

-- If the first diff has siblings, an assertion fails with the next one.
pub push_all_refused :
    (batch_limit : ℕ) (a b : Chain) (chains : List Chain)
    → 1 < batch_limit
    → (length a.siblings == 0) ≡ false
    → push_all (a ∷ b ∷ chains) (make batch_limit) ≡ none
unfolding push_all push_back attach append_to finish_back
push_all_refused batch_limit a b chains h many =
    let room : (batch_limit - 1 == 0) ≡ false = ground arith in rw (push_all, room, many) refl
