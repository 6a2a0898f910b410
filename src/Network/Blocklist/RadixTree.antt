-- ===== src/Network/Blocklist/RadixTree.antt =====
-- crates/pb-network/src/blocklist/radix_tree.rs: the tree of labels, from the last label of a host
-- to the first, and the longest match in it. A `HashMap` of children is a list of them; a new child
-- goes to its end.
pub mod Paths
pub mod Longest
pub mod Count
use mathlib.Core.List.{reverse}
use dev_browse.Prelude.{
  ℕ, ◌+◌, Bool, true, false, not, ◌&&◌, ◌||◌, List, [], ◌∷◌, Option, none, some, ltb, ◌==◌,
  if◌then◌else◌, is_empty,
}
use dev_browse.Network.Blocklist.Rule.{BlockKind, Rule, to_ascii_lowercase}

abbrev pub Label : Type 0
Label = List ℕ

pub record Terminal : Type 0 where
  pub kind : BlockKind
  pub applies_to_subdomains : Bool

mutual
  pub data Node : Type 0 where
    node : Children → Option Terminal → Node

  pub data Children : Type 0 where
    leaf : Children
    child : Label → Node → Children → Children

pub record RadixTree : Type 0 where
  pub root : Node

-- `Node::default()`.
abbrev pub default_node : Node
default_node = node leaf none

unfoldable pub empty : RadixTree
empty = record { root = default_node }

-- The equality of labels.
unfoldable pub same_label : Label → Label → Bool
same_label [] [] = true
same_label [] (y ∷ ys) = false
same_label (x ∷ xs) [] = false
same_label (x ∷ xs) (y ∷ ys) = x == y && same_label xs ys

abbrev pub first_byte : ℕ → List Label → List Label
first_byte c [] = (c ∷ []) ∷ []
first_byte c (l ∷ ls) = (c ∷ l) ∷ ls

-- `str::split('.')`; `rsplit` gives the same parts from the last to the first.
unfoldable pub split_dots : List ℕ → List Label
split_dots [] = [] ∷ []
split_dots (c ∷ s) = let rest = split_dots s in if c == 46 then [] ∷ rest else first_byte c rest

unfoldable pub drop_empty : List Label → List Label
drop_empty [] = []
drop_empty (l ∷ ls) = if is_empty l then drop_empty ls else l ∷ drop_empty ls

-- `rsplit('.')` without the empty labels.
unfoldable pub labels : List ℕ → List Label
unfolding split_dots drop_empty
labels s = drop_empty (reverse (split_dots s))

unfoldable pub get_child : Label → Children → Option Node
unfolding same_label
get_child l leaf = none
get_child l (child k n cs) = if same_label k l then some n else get_child l cs

unfoldable pub set_child : Label → Node → Children → Children
unfolding same_label
set_child l n leaf = child l n leaf
set_child l n (child k m cs) = if same_label k l then child k n cs else child k m (set_child l n cs)

abbrev pub or_default : Option Node → Node
or_default none = default_node
or_default (some n) = n

-- The `match` on the terminal that is there.
unfoldable pub replace_terminal : Option Terminal → Terminal → Option Terminal
replace_terminal none new_term = some new_term
replace_terminal (some existing) new_term =
    if existing.applies_to_subdomains && not new_term.applies_to_subdomains
    then some new_term
    else some new_term

-- The descent of `insert`, which makes the nodes that are missing, and the terminal at its end.
unfoldable pub insert_at : List Label → Terminal → Node → Node
unfolding get_child set_child replace_terminal
insert_at [] t (node cs terminal) = node cs (replace_terminal terminal t)
insert_at (l ∷ ls) t (node cs terminal) =
    node (set_child l (insert_at ls t (or_default (get_child l cs))) cs) terminal

unfoldable pub insert : Node → Rule → Node
unfolding labels insert_at
insert root r =
    if is_empty (labels r.hostname)
    then root
    else insert_at (labels r.hostname)
        (record { kind = r.kind; applies_to_subdomains = r.applies_to_subdomains }) root

-- The loop of `from_rules`.
unfoldable pub insert_all : Node → List Rule → Node
unfolding insert
insert_all root [] = root
insert_all root (r ∷ rs) = insert_all (insert root r) rs

unfoldable pub from_rules : List Rule → RadixTree
unfolding insert_all
from_rules rules = record { root = insert_all default_node rules }

-- What a node on the way does to the best match so far.
abbrev pub better : Option Terminal → Bool → Option BlockKind → Option BlockKind
better none is_last best = best
better (some t) is_last best = if t.applies_to_subdomains || is_last then some t.kind else best

abbrev pub terminal_of : Node → Option Terminal
terminal_of (node _ terminal) = terminal

-- The loop of `match_host_internal`.
unfoldable pub descend : List Label → Node → Option BlockKind → Option BlockKind
unfolding get_child
descend [] n best = best
descend (l ∷ ls) (node cs terminal) best = elim (get_child l cs) [
  | none ↦ best
  | some c ↦ descend ls c (better (terminal_of c) (is_empty ls) best)
]

unfoldable pub match_host_internal : RadixTree → List ℕ → Option BlockKind
unfolding labels descend
match_host_internal t host_lower = descend (labels host_lower) t.root none

unfoldable pub match_host : RadixTree → List ℕ → Option BlockKind
unfolding match_host_internal
match_host t host = match_host_internal t (to_ascii_lowercase host)

abbrev terminals : Option Terminal → ℕ
terminals none = 0
terminals (some _) = 1

unfoldable mutual
  pub count_rules : Node → ℕ
  count_rules (node cs terminal) = terminals terminal + count_children cs

  pub count_children : Children → ℕ
  count_children leaf = 0
  count_children (child _ n cs) = count_rules n + count_children cs

unfoldable mutual
  pub max_depth : Node → ℕ → ℕ
  max_depth (node cs terminal) depth = max_depth_children cs (depth + 1) depth

  -- The loop over the children, each at `below`, with the deepest so far.
  pub max_depth_children : Children → ℕ → ℕ → ℕ
  max_depth_children leaf below deepest = deepest
  max_depth_children (child _ n cs) below deepest =
      max_depth_children cs below
        (if ltb deepest (max_depth n below) then max_depth n below else deepest)
