-- ===== src/Network/Blocklist/RadixTree/Count.antt =====
-- `rule_count` of crates/pb-network/src/blocklist/radix_tree.rs over insertions.
use dev_browse.Prelude.{
  ℕ, ◌+◌, ◌≡◌, List, [], ◌∷◌, Option, none, some, arith, is_empty, if◌then◌else◌,
}
use dev_browse.Network.Blocklist.Rule.{Rule}
use dev_browse.Network.Blocklist.RadixTree.{
  Label, Terminal, Node, node, Children, leaf, child, get_child, set_child, or_default,
  replace_terminal, insert_at, insert, labels, count_rules, count_children,
}
use dev_browse.Network.Blocklist.RadixTree.Paths.{terminal_at, terminal_at-or_default}

-- One for a name that has no rule yet.
abbrev pub new_name : Option Terminal → ℕ
new_name none = 1
new_name (some _) = 0

count_children-set_child :
    (l : Label) (n : Node) (cs : Children)
    → count_children (set_child l n cs) + count_rules (or_default (get_child l cs))
      ≡ count_children cs + count_rules n
unfolding set_child get_child count_rules
count_children-set_child l n leaf = omega arith
count_children-set_child l n (child k m cs) = ground (arith, count_children-set_child l n cs)

count_rules-insert_at :
    (q : List Label) (t : Terminal) (n : Node)
    → count_rules (insert_at q t n) ≡ count_rules n + new_name (terminal_at q n)
unfolding insert_at terminal_at count_rules replace_terminal
count_rules-insert_at [] t (node cs none) = omega arith
count_rules-insert_at [] t (node cs (some x)) = ground arith
count_rules-insert_at (l ∷ ls) t (node cs x) =
    let inside = count_rules-insert_at ls t (or_default (get_child l cs)) in
    let here = terminal_at-or_default ls l cs x in
    let sum = count_children-set_child l (insert_at ls t (or_default (get_child l cs))) cs in
    ground (arith, terminal_at)

-- The number of stored rules grows by one exactly with a rule for a name that has none yet, and
-- never with a rule whose name has no label.
pub count_rules-insert :
    (n : Node) (r : Rule)
    → count_rules (insert n r) ≡ (
        if is_empty (labels r.hostname)
        then count_rules n
        else count_rules n + new_name (terminal_at (labels r.hostname) n))
unfolding insert
count_rules-insert n r = ground (
  arith,
  count_rules-insert_at (labels r.hostname)
      (record { kind = r.kind; applies_to_subdomains = r.applies_to_subdomains }) n,
)
