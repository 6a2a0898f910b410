-- ===== src/Network/Blocklist/RadixTree/Longest.antt =====
-- `match_host` of crates/pb-network/src/blocklist/radix_tree.rs against its contract, the longest
-- match.
use dev_browse.Prelude.{
  ℕ, subst, true, List, [], ◌∷◌, ◌++◌, Option, none, some, is_empty, ◌≡◌, refl, sym, ap, ◌∙◌, ◌⊎◌,
  inl, inr, arith, Bool-cases, Option-cases,
}
use dev_browse.Network.Blocklist.Rule.{BlockKind, Rule, to_ascii_lowercase}
use dev_browse.Network.Blocklist.RadixTree.{
  Label, Terminal, Node, node, get_child, descend, better, terminal_of, labels, match_host,
  match_host_internal, from_rules, insert_all, default_node,
}
use dev_browse.Network.Blocklist.RadixTree.Paths.{terminal_at, latest, terminal_at-insert_all}

-- What is known of each path.
abbrev pub Table : Type 0
Table = List Label → Option Terminal

-- The rule for the path `p` covers the host of labels `p ++ rest`, with this kind.
abbrev pub Covers : Table → List Label → List Label → BlockKind → Type 0
Covers f p rest k =
    (t : Terminal) × (f p ≡ some t)
    × (t.kind ≡ k)
    × ((t.applies_to_subdomains ≡ true) ⊎ (rest ≡ []))

-- The best match of a host: what was known where no path of its own covers it, or the kind of the
-- longest path that does.
pub data Longest (f : Table) (hs : List Label) (best : Option BlockKind)
    : Option BlockKind → Type 0 where
  unmatched :
      ((l : Label) (p rest : List Label) (k : BlockKind)
        → hs ≡ l ∷ p ++ rest
        → ¬ Covers f (l ∷ p) rest k)
      → Longest f hs best best
  matched :
      (l : Label) (p rest : List Label) (k : BlockKind)
      → hs ≡ l ∷ p ++ rest
      → Covers f (l ∷ p) rest k
      → ((m : Label) (q more : List Label) (j : BlockKind)
          → rest ≡ m ∷ q ++ more
          → ¬ Covers f (l ∷ p ++ m ∷ q) more j)
      → Longest f hs best (some k)

-- The match along a table: the reference for the descent.
unfoldable pub match_along : Table → List Label → Option BlockKind → Option BlockKind
match_along f [] best = best
match_along f (l ∷ ls) best =
    match_along (λ p. f (l ∷ p)) ls (better (f (l ∷ [])) (is_empty ls) best)

abbrev child_of : Node → Label → Option Node
child_of (node cs _) l = get_child l cs

match_along-none :
    (f : Table) (ls : List Label) (best : Option BlockKind)
    → ((p : List Label) → f p ≡ none)
    → match_along f ls best ≡ best
unfolding match_along
match_along-none f [] best h = refl
match_along-none f (l ∷ ls) best h =
    rw (h (l ∷ [])) (match_along-none (λ p. f (l ∷ p)) ls best (λ p. h (l ∷ p)))

match_along-ext :
    (f g : Table) (ls : List Label) (best : Option BlockKind)
    → ((l : Label) (p : List Label) → f (l ∷ p) ≡ g (l ∷ p))
    → match_along f ls best ≡ match_along g ls best
unfolding match_along
match_along-ext f g [] best h = refl
match_along-ext f g (l ∷ ls) best h =
    rw (h l []) (match_along-ext (λ p. f (l ∷ p)) (λ p. g (l ∷ p)) ls _ (λ k p. h l (k ∷ p)))

better-cases :
    (o : Option Terminal) (rest : List Label) (best : Option BlockKind)
    → ((k : BlockKind) × (better o (is_empty rest) best ≡ some k)
        × ((t : Terminal) × (o ≡ some t)
            × (t.kind ≡ k)
            × ((t.applies_to_subdomains ≡ true) ⊎ (rest ≡ []))))
      ⊎ ((better o (is_empty rest) best ≡ best)
          × ((t : Terminal) → o ≡ some t → ¬ ((t.applies_to_subdomains ≡ true) ⊎ (rest ≡ []))))
better-cases none rest best = inr (refl, λ t e. absurd cc)
better-cases (some t) [] best = elim (Bool-cases t.applies_to_subdomains) [
  | inl e ↦ inl (t.kind, rw e refl, (t, refl, refl, inr refl))
  | inr e ↦ inl (t.kind, rw e refl, (t, refl, refl, inr refl))
]
better-cases (some t) (l ∷ rest) best = elim (Bool-cases t.applies_to_subdomains) [
  | inl e ↦ inl (t.kind, rw e refl, (t, refl, refl, inl e))
  | inr e ↦ inr (rw e refl, λ u same. ground arith)
]

terminal_at-child :
    (l : Label) (p : List Label) (n : Node) (c : Node)
    → child_of n l ≡ some c
    → terminal_at (l ∷ p) n ≡ terminal_at p c
unfolding terminal_at
terminal_at-child l p (node cs x) c e = ground arith

terminal_at-no_child :
    (l : Label) (p : List Label) (n : Node) → child_of n l ≡ none → terminal_at (l ∷ p) n ≡ none
unfolding terminal_at
terminal_at-no_child l p (node cs x) e = ground arith

terminal_at-end : (n : Node) → terminal_at [] n ≡ terminal_of n
unfolding terminal_at
terminal_at-end n = refl

descend-child :
    (l : Label) (ls : List Label) (n c : Node) (best : Option BlockKind)
    → child_of n l ≡ some c
    → descend (l ∷ ls) n best ≡ descend ls c (better (terminal_of c) (is_empty ls) best)
unfolding descend
descend-child l ls (node cs x) c best e = ground arith

descend-no_child :
    (l : Label) (ls : List Label) (n : Node) (best : Option BlockKind)
    → child_of n l ≡ none
    → descend (l ∷ ls) n best ≡ best
unfolding descend
descend-no_child l ls (node cs x) best e = ground arith

-- The descent of the tree is the match along its terminals.
pub descend-match_along :
    (hs : List Label) (n : Node) (best : Option BlockKind)
    → descend hs n best ≡ match_along (λ p. terminal_at p n) hs best
unfolding descend match_along
descend-match_along [] n best = refl
descend-match_along (l ∷ ls) n best = elim (Option-cases (child_of n l)) [
  | inl e ↦
      descend-no_child l ls n best e
      ∙ sym (
          ap (λ o. match_along (λ p. terminal_at (l ∷ p) n) ls (better o (is_empty ls) best))
            (terminal_at-no_child l [] n e)
          ∙ match_along-none (λ p. terminal_at (l ∷ p) n) ls best
              (λ p. terminal_at-no_child l p n e))
  | inr (c, e) ↦
      descend-child l ls n c best e
      ∙ descend-match_along ls c (better (terminal_of c) (is_empty ls) best)
      ∙ ap (λ o. match_along (λ p. terminal_at p c) ls (better o (is_empty ls) best))
          (sym (terminal_at-child l [] n c e ∙ terminal_at-end c))
      ∙ sym (
          match_along-ext (λ p. terminal_at (l ∷ p) n) (λ p. terminal_at p c) ls
            (better (terminal_at (l ∷ []) n) (is_empty ls) best)
            (λ k p. terminal_at-child l (k ∷ p) n c e))
]

module _ (f : Table) (h : Label) (ls : List Label) where
  -- One label more in front of a host whose first label leaves the match as it was.
  unmatched-cons :
      (best b : Option BlockKind)
      → b ≡ best
      → ((t : Terminal) → f (h ∷ []) ≡ some t → ¬ ((t.applies_to_subdomains ≡ true) ⊎ (ls ≡ [])))
      → ((l : Label) (p rest : List Label) (k : BlockKind)
          → ls ≡ l ∷ p ++ rest
          → ¬ Covers (λ p. f (h ∷ p)) (l ∷ p) rest k)
      → Longest f (h ∷ ls) best b
  unmatched-cons best b e first none_deeper =
      subst (Longest f (h ∷ ls) best) (sym e) (Longest.unmatched go)
    where
      go :
          (l : Label) (p rest : List Label) (k : BlockKind)
          → h ∷ ls ≡ l ∷ p ++ rest
          → ¬ Covers f (l ∷ p) rest k
      go l [] rest k eq (t, here, _, scope) =
          let same : h ≡ l = cc in
          let tail : ls ≡ rest = cc in
          let reached : f (h ∷ []) ≡ some t = ap (λ x. f (x ∷ [])) same ∙ here in
          let scope' : (t.applies_to_subdomains ≡ true) ⊎ (ls ≡ []) = elim scope [
            | inl e ↦ inl e
            | inr e ↦ inr (tail ∙ e)
          ] in
          first t reached scope'
      go l (m ∷ q) rest k eq (t, here, kind, scope) =
          let same : h ≡ l = cc in
          let tail : ls ≡ m ∷ q ++ rest = cc in
          none_deeper m q rest k tail (t, ap (λ x. f (x ∷ m ∷ q)) same ∙ here, kind, scope)

  pub Longest-cons :
      (best r : Option BlockKind)
      → Longest (λ p. f (h ∷ p)) ls (better (f (h ∷ [])) (is_empty ls) best) r
      → Longest f (h ∷ ls) best r
  Longest-cons best _ (Longest.matched l p rest k eq covers longer) =
      Longest.matched h (l ∷ p) rest k (ap (λ x. h ∷ x) eq) covers longer
  Longest-cons best _ (Longest.unmatched none_deeper) = elim (better-cases (f (h ∷ [])) ls best) [
    | inl (k, e, covers) ↦
        subst (Longest f (h ∷ ls) best) (sym e) (Longest.matched h [] ls k refl covers none_deeper)
    | inr (e, first) ↦
        unmatched-cons best (better (f (h ∷ [])) (is_empty ls) best) e first none_deeper
  ]

match_along-Longest :
    (f : Table) (hs : List Label) (best : Option BlockKind)
    → Longest f hs best (match_along f hs best)
unfolding match_along
match_along-Longest f [] best = Longest.unmatched (λ l p rest k eq _. absurd cc)
match_along-Longest f (h ∷ ls) best =
    Longest-cons f h ls best _
      (match_along-Longest (λ p. f (h ∷ p)) ls (better (f (h ∷ [])) (is_empty ls) best))

-- A host, in any case, gets the kind of the longest rule that covers it, and no match where none
-- does: a rule covers a host whose last labels are the rule's, all of them or, where the rule
-- applies to subdomains, with more before them. Of two rules for one name the later one counts.
pub match_host-Longest :
    (rules : List Rule) (host : List ℕ)
    → Longest
        (latest none rules)
        (labels (to_ascii_lowercase host))
        none
        (match_host (from_rules rules) host)
unfolding match_host match_host_internal from_rules terminal_at
match_host-Longest rules host =
    let hs = labels (to_ascii_lowercase host) in
    subst (Longest (latest none rules) hs none)
      (sym (
        descend-match_along hs (insert_all default_node rules) none
        ∙ match_along-ext (λ p. terminal_at p (insert_all default_node rules)) (latest none rules)
            hs none (λ l p. terminal_at-insert_all default_node rules l p)))
      (match_along-Longest (latest none rules) hs none)
