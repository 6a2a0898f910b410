-- ===== src/Network/Coordinator/Url/Host.antt =====
-- `parse_host` on a URL that is given by its parts.
use mathlib.Core.List.{append_assoc, append-nil}
use dev_browse.Prelude.{
  ℕ, ◌≡◌, refl, sym, true, false, ◌&&◌, List, [], ◌∷◌, ◌++◌, Option, none, some, arith, is_empty,
  contains, contains-append, Option-cases, inl, inr,
}
use dev_browse.Prelude.Text.{bytes, cut_at, cut_at-append, cut_at-none, prepend}
use dev_browse.Prelude.Fallible.{drop}
use dev_browse.Config.Loader.{starts_with}
use dev_browse.Network.Coordinator.Url.{
  after_scheme, ends_authority, in_authority, userinfo_cut, after_userinfo, authority_of,
  strip_port, host_of, parse_host,
}

-- The texts of an optional userinfo and an optional port.
abbrev pub user_text : Option (List ℕ) → List ℕ
user_text none = []
user_text (some u) = u ++ bytes "@"

abbrev pub port_text : Option (List ℕ) → List ℕ
port_text none = []
port_text (some p) = 58 ∷ p

-- What comes behind an authority: nothing, or a text that begins with `/`, `?` or `#`.
abbrev pub Behind : List ℕ → Type 0
Behind [] = Unit
Behind (b ∷ s) = ends_authority b ≡ true

-- A part of an authority without `@`.
abbrev pub Plain : List ℕ → Type 0
Plain s = (in_authority s ≡ true) × (contains 64 s ≡ false)

abbrev pub PlainPart : Option (List ℕ) → Type 0
PlainPart none = Unit
PlainPart (some s) = Plain s

after_scheme-append :
    (scheme s : List ℕ)
    → contains 58 scheme ≡ false
    → after_scheme (scheme ++ (58 ∷ 47 ∷ 47 ∷ s)) ≡ some s
unfolding after_scheme starts_with contains drop
after_scheme-append [] s h = refl
after_scheme-append (c ∷ scheme) s h = ground (arith, after_scheme-append scheme s)

in_authority-append : (a b : List ℕ) → in_authority (a ++ b) ≡ (in_authority a && in_authority b)
unfolding in_authority
in_authority-append a b =
    ground (arith, contains-append 47 a b, contains-append 63 a b, contains-append 35 a b)

authority_of-append : (a b : List ℕ) → in_authority a ≡ true → Behind b → authority_of (a ++ b) ≡ a
unfolding authority_of in_authority contains ends_authority
authority_of-append [] [] h k = refl
authority_of-append [] (x ∷ b) h k = ground arith
authority_of-append (x ∷ a) b h k = ground (arith, authority_of-append a b)

-- An `@` behind the authority is no userinfo.
cut-Behind :
    (b : List ℕ)
    → Behind b
    → (before after : List ℕ) → cut_at 64 b ≡ some (before, after)
    → in_authority before ≡ false
unfolding cut_at ends_authority in_authority contains
cut-Behind [] k before after e = cc
cut-Behind (x ∷ b) k before after e = elim (Option-cases (cut_at 64 b)) [
  | inl n ↦ ground arith
  | inr ((p, q), n) ↦ ground arith
]

abbrev prepend_all : List ℕ → Option (List ℕ × List ℕ) → Option (List ℕ × List ℕ)
prepend_all a none = none
prepend_all a (some (before, after)) = some (a ++ before, after)

prepend-prepend_all :
    (x : ℕ) (a : List ℕ) (o : Option (List ℕ × List ℕ))
    → prepend x (prepend_all a o) ≡ prepend_all (x ∷ a) o
prepend-prepend_all x a none = refl
prepend-prepend_all x a (some (p, q)) = refl

prepend_all_nil : (o : Option (List ℕ × List ℕ)) → prepend_all [] o ≡ o
prepend_all_nil none = refl
prepend_all_nil (some (p, q)) = refl

cut_at_skip :
    (c : ℕ) (a b : List ℕ) → contains c a ≡ false → cut_at c (a ++ b) ≡ prepend_all a (cut_at c b)
unfolding cut_at contains
cut_at_skip c [] b h = sym (prepend_all_nil (cut_at c b))
cut_at_skip c (x ∷ a) b h = ground (arith, cut_at_skip c a b, prepend-prepend_all x a (cut_at c b))

after_userinfo_none :
    (a b : List ℕ) → contains 64 a ≡ false → Behind b → after_userinfo (a ++ b) ≡ a ++ b
unfolding after_userinfo
after_userinfo_none a b h k = rw (cut_at_skip 64 a b h) (cases (cut_at 64 b) refl)
  where
    cases :
        (o : Option (List ℕ × List ℕ))
        → cut_at 64 b ≡ o
        → userinfo_cut (a ++ b) (prepend_all a o) ≡ a ++ b
    cases none e = refl
    cases (some (p, q)) e = ground (arith, cut-Behind b k p q e, in_authority-append a p)

after_userinfo_some : (u s : List ℕ) → Plain u → after_userinfo ((u ++ bytes "@") ++ s) ≡ s
unfolding after_userinfo
after_userinfo_some u s h = rw (append_assoc u (bytes "@") s, cut_at-append 64 u s h.1, h.0) refl

strip_port-port_text :
    (host : List ℕ) (port : Option (List ℕ))
    → is_empty host ≡ false
    → contains 58 host ≡ false
    → contains 91 host ≡ false
    → strip_port (host ++ port_text port) ≡ some host
unfolding strip_port contains
strip_port-port_text [] port n h k = cc
strip_port-port_text (x ∷ host) none n h k =
    rw (append-nil host) (ground (arith, cut_at-none 58 (x ∷ host)))
strip_port-port_text (x ∷ host) (some p) n h k = ground (arith, cut_at-append 58 (x ∷ host) p)

host_of-port_text :
    (host : List ℕ) (port : Option (List ℕ))
    → is_empty host ≡ false
    → contains 58 host ≡ false
    → contains 91 host ≡ false
    → host_of (host ++ port_text port) ≡ some host
host_of-port_text [] port n h k = cc
host_of-port_text (x ∷ host) port n h k = rw (strip_port-port_text (x ∷ host) port n h k) refl

Plain-port_text :
    (host : List ℕ) (port : Option (List ℕ))
    → Plain host
    → PlainPart port
    → Plain (host ++ port_text port)
unfolding in_authority contains
Plain-port_text host none h p = rw (append-nil host) h
Plain-port_text host (some p) h k =
    ground (arith, h, k, in_authority-append host (58 ∷ p), contains-append 64 host (58 ∷ p))

after_userinfo-Plain :
    (user : Option (List ℕ)) (a b : List ℕ)
    → PlainPart user
    → Plain a
    → Behind b
    → after_userinfo (user_text user ++ (a ++ b)) ≡ a ++ b
after_userinfo-Plain none a b u h k = after_userinfo_none a b h.1 k
after_userinfo-Plain (some u) a b hu h k = after_userinfo_some u (a ++ b) hu

-- The host that the blocklist is asked about is the host of the URL, in `scheme://user@host:port` with
-- anything behind it, where userinfo and port may be missing and what follows begins with `/`, `?` or
-- `#`: the scheme has no `:`, no part of the authority has `/`, `?`, `#` or a further `@`, and the
-- host is not empty and has no `:` and no `[`.
pub parse_host-parts :
    (scheme host behind : List ℕ) (user port : Option (List ℕ))
    → contains 58 scheme ≡ false
    → PlainPart user
    → Plain host
    → is_empty host ≡ false
    → contains 58 host ≡ false
    → contains 91 host ≡ false
    → PlainPart port
    → Behind behind
    → parse_host
        (scheme ++ (bytes "://" ++ (user_text user ++ ((host ++ port_text port) ++ behind))))
      ≡ some host
unfolding parse_host
parse_host-parts scheme host behind user port s u h n c k p b =
    let authority = host ++ port_text port in
    let plain = Plain-port_text host port h p in
    rw
      (
        after_scheme-append scheme (user_text user ++ (authority ++ behind)) s,
        after_userinfo-Plain user authority behind u plain b,
        authority_of-append authority behind plain.0 b,
      )
      (host_of-port_text host port n c k)
