-- ===== src/Network/Blocklist/RadixTree/Paths.antt =====
-- The terminal at a path of the tree of crates/pb-network/src/blocklist/radix_tree.rs, and the list
-- of rules that it stands for.
use dev_browse.Prelude.{
  Bool, true, false, ◌&&◌, List, [], ◌∷◌, Option, none, some, if◌then◌else◌, ◌≡◌, refl, ap, ◌∙◌,
  ◌⊎◌, inl, inr, arith, Bool-cases, Option-cases,
}
use dev_browse.Network.Blocklist.Rule.{Rule}
use dev_browse.Network.Blocklist.RadixTree.{
  Label, Terminal, Node, node, Children, leaf, child, same_label, labels, get_child, set_child,
  or_default, insert_at, insert, insert_all, default_node, replace_terminal, terminal_of,
}

pub same_label_refl : (l : Label) → same_label l l ≡ true
unfolding same_label
same_label_refl [] = refl
same_label_refl (x ∷ xs) = ground (arith, same_label_refl xs)

pub same_label_eq : (k l : Label) → same_label k l ≡ true → k ≡ l
unfolding same_label
same_label_eq [] [] h = refl
same_label_eq [] (y ∷ ys) h = cc
same_label_eq (x ∷ xs) [] h = cc
same_label_eq (x ∷ xs) (y ∷ ys) h = ground (arith, same_label_eq xs ys)

get_child-set_child :
    (l k : Label) (n : Node) (cs : Children)
    → get_child k (set_child l n cs) ≡ (if same_label l k then some n else get_child k cs)
unfolding get_child set_child
get_child-set_child l k n leaf = refl
get_child-set_child l k n (child j m cs) = ground (
  arith,
  get_child-set_child l k n cs,
  same_label_eq j l,
  same_label_eq j k,
  same_label_eq l k,
  same_label_refl j,
  same_label_refl k,
)

-- The terminal at the end of a path.
unfoldable pub terminal_at : List Label → Node → Option Terminal
unfolding get_child
terminal_at [] n = terminal_of n
terminal_at (l ∷ ls) (node cs terminal) = elim (get_child l cs) [
  | none ↦ none
  | some c ↦ terminal_at ls c
]

unfoldable pub same_path : List Label → List Label → Bool
unfolding same_label
same_path [] [] = true
same_path [] (y ∷ ys) = false
same_path (x ∷ xs) [] = false
same_path (x ∷ xs) (y ∷ ys) = same_label x y && same_path xs ys

terminal_at-default : (p : List Label) → terminal_at p default_node ≡ none
unfolding terminal_at
terminal_at-default [] = refl
terminal_at-default (l ∷ ls) = refl

pub terminal_at-or_default :
    (p : List Label) (l : Label) (cs : Children) (t : Option Terminal)
    → terminal_at p (or_default (get_child l cs)) ≡ terminal_at (l ∷ p) (node cs t)
unfolding terminal_at
terminal_at-or_default p l cs t = elim (Option-cases (get_child l cs)) [
  | inl e ↦ ground (arith, terminal_at-default p)
  | inr (c, e) ↦ ground arith
]

pub terminal_at-insert_at :
    (q p : List Label) (t : Terminal) (n : Node)
    → terminal_at p (insert_at q t n) ≡ (if same_path q p then some t else terminal_at p n)
unfolding terminal_at insert_at same_path replace_terminal
terminal_at-insert_at [] [] t (node cs none) = refl
terminal_at-insert_at [] [] t (node cs (some x)) = ground arith
terminal_at-insert_at [] (l ∷ p) t (node cs x) = refl
terminal_at-insert_at (k ∷ q) [] t (node cs x) = refl
terminal_at-insert_at (k ∷ q) (l ∷ p) t (node cs x) =
    let set = get_child-set_child k l (insert_at q t (or_default (get_child k cs))) cs in
    elim (Bool-cases (same_label k l)) [
      | inl e ↦
          let same = same_label_eq k l e in
          let inside = terminal_at-insert_at q p t (or_default (get_child k cs)) in
          let before = terminal_at-or_default p k cs x in ground (arith, terminal_at)
      | inr e ↦ ground arith
    ]

abbrev pub terminal_of_rule : Rule → Terminal
terminal_of_rule r = record { kind = r.kind; applies_to_subdomains = r.applies_to_subdomains }

-- The rule for a path that comes last, or `best` where there is none.
unfoldable pub latest : Option Terminal → List Rule → List Label → Option Terminal
latest best [] p = best
latest best (r ∷ rs) p =
    latest (if same_path (labels r.hostname) p then some (terminal_of_rule r) else best) rs p

terminal_at-insert :
    (n : Node) (r : Rule) (l : Label) (p : List Label)
    → terminal_at (l ∷ p) (insert n r) ≡ (
        if same_path (labels r.hostname) (l ∷ p)
        then some (terminal_of_rule r)
        else terminal_at (l ∷ p) n)
unfolding insert same_path
terminal_at-insert n r l p = elim (labels-cases (labels r.hostname)) [
  | inl e ↦ rw e
  | inr (h, q, e) ↦ rw e (terminal_at-insert_at (h ∷ q) (l ∷ p) (terminal_of_rule r) n)
]
  where
    labels-cases : (xs : List Label) → (xs ≡ []) ⊎ ((h : Label) × (q : List Label) × (xs ≡ h ∷ q))
    labels-cases [] = inl refl
    labels-cases (h ∷ q) = inr (h, q, refl)

pub terminal_at-insert_all :
    (n : Node) (rs : List Rule) (l : Label) (p : List Label)
    → terminal_at (l ∷ p) (insert_all n rs) ≡ latest (terminal_at (l ∷ p) n) rs (l ∷ p)
unfolding insert_all latest
terminal_at-insert_all n [] l p = refl
terminal_at-insert_all n (r ∷ rs) l p =
    terminal_at-insert_all (insert n r) rs l p
    ∙ ap (λ b. latest b rs (l ∷ p)) (terminal_at-insert n r l p)
