-- ===== src/DiffAssembler.antt =====
-- model/diff/diff_assembler.cpp, with assign_sibling of model/diff/cluster_diff.cpp: the chain of diffs
-- that is applied in batches. A diff is named by a number; a failed assertion is `none`.
pub mod Batches
use syncspirit.Prelude.{
  ℕ, zero, suc, ◌+◌, ◌-◌, Bool, true, false, List, [], ◌∷◌, ◌++◌, Option, none, some, if◌then◌else◌,
  leb, ◌==◌, length, map,
}

pub data Node : Type 0 where
  diff : ℕ → Node
  interrupt : Node

-- A diff that is pushed, with the siblings that it has.
pub record Chain : Type 0 where
  pub first : ℕ
  pub siblings : List ℕ

abbrev pub nodes : Chain → List Node
nodes chain = diff chain.first ∷ map diff chain.siblings

-- The chain behind `root`, and of `next` the number of nodes behind it.
pub record Assembler : Type 0 where
  pub batch_limit : ℕ
  pub left : ℕ
  pub total : ℕ
  pub root : List Node
  pub next : Option ℕ

abbrev pub make : ℕ → Assembler
make batch_limit = record {
  batch_limit = batch_limit;
  left = batch_limit;
  total = 0;
  root = [];
  next = none;
}

-- `next = next->assign_sibling(...)`: the last of the siblings is the next one.
unfoldable pub append_to : Assembler → ℕ → List Node → Option Assembler
append_to s behind chain =
    if behind == 0 then some (record s { root = s.root ++ chain; next = some 0 }) else none

-- With `next`, and without.
unfoldable pub attach : Assembler → Chain → Option Assembler
unfolding append_to
attach s chain = elim s.next [
  | none ↦ some (record s { root = nodes chain; next = some (length chain.siblings) })
  | some behind ↦ append_to s behind (nodes chain)
]

abbrev pub reset_left : Option Assembler → Option Assembler
reset_left none = none
reset_left (some s) = some (record s { left = s.batch_limit })

-- What follows when a batch is full.
unfoldable pub interrupt_back : Assembler → Option Assembler
unfolding append_to
interrupt_back s = elim s.next [
  | none ↦ none
  | some behind ↦ reset_left (append_to s behind (interrupt ∷ []))
]

unfoldable pub finish_back : Option Assembler → Option (Assembler × Bool)
unfolding interrupt_back
finish_back none = none
finish_back (some s) =
    if s.left == 0
    then elim (interrupt_back s) [ none ↦ none | some t ↦ some (t, true) ]
    else some (s, false)

unfoldable pub push_back : Chain → Assembler → Option (Assembler × Bool)
unfolding attach finish_back
push_back chain s = finish_back (attach (record s { left = s.left - 1; total = s.total + 1 }) chain)

-- A diff in front of others has no siblings of its own.
unfoldable pub attach_front : Assembler → Chain → Option Assembler
attach_front s chain = elim s.next [
  | none ↦ some (record s { root = nodes chain; next = some (length chain.siblings) })
  | some behind ↦ elim chain.siblings [
    | [] ↦ some (record s { root = diff chain.first ∷ s.root; next = some (length s.root) })
    | sibling ∷ siblings ↦ none
  ]
]

unfoldable pub finish_front : Option Assembler → Option (Assembler × Bool)
finish_front none = none
finish_front (some s) =
    if s.left == 0
    then some (
      record s { root = interrupt ∷ s.root; next = some (length s.root); left = s.batch_limit },
      true,
    )
    else some (s, false)

unfoldable pub push_front : Chain → Assembler → Option (Assembler × Bool)
unfolding attach_front finish_front
push_front chain s =
    finish_front (attach_front (record s { left = s.left - 1; total = s.total + 1 }) chain)

abbrev pub has_diffs : Assembler → Bool
has_diffs s = if length s.root == 0 then false else true

abbrev pub is_overused : Assembler → Bool
is_overused s = leb s.batch_limit s.total

abbrev pub consume : Assembler → Assembler × List Node
consume s = (record s { root = []; next = none; left = s.batch_limit }, s.root)

-- The calls in a row, as their callers make them.
unfoldable pub push_all : List Chain → Assembler → Option Assembler
unfolding push_back
push_all [] s = some s
push_all (chain ∷ chains) s = elim (push_back chain s) [
  | none ↦ none
  | some (t, full) ↦ push_all chains t
]
