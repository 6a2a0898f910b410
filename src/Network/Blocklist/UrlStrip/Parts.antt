-- ===== src/Network/Blocklist/UrlStrip/Parts.antt =====
-- `strip_tracking_params` on a URL that is given by its prefix, its query parameters and its fragment.
use mathlib.Core.List.{append-nil}
use dev_browse.Prelude.{
  ℕ, ◌≤◌, ◌≡◌, refl, Bool, true, false, not, ◌&&◌, List, [], ◌∷◌, ◌++◌, Option, none, some, arith,
  if◌then◌else◌, length, is_empty, contains, contains-append, filter, any, ltb, ◌==◌,
}
use dev_browse.Prelude.Text.{cut_at, cut_at-append, cut_at-none, split_on-join, join, Free}
use dev_browse.Network.Blocklist.UrlStrip.{
  UrlParamStripList, split_fragment, is_listed, key_of, kept_parts, stripped_any, query_text,
  strip_query, strip_tracking_params,
}

-- A parameter that the list names, and one that stays: not listed and not empty.
abbrev pub tracking : UrlParamStripList → List ℕ → Bool
tracking list part = not (is_empty part) && is_listed list (key_of part)

abbrev pub kept : UrlParamStripList → List ℕ → Bool
kept list part = not (is_empty part) && not (is_listed list (key_of part))

-- The text of an optional fragment.
abbrev pub hash : Option (List ℕ) → List ℕ
hash none = []
hash (some s) = 35 ∷ s

kept_parts-eq :
    (list : UrlParamStripList) (ps : List (List ℕ)) → kept_parts list ps ≡ filter (kept list) ps
unfolding kept_parts filter
kept_parts-eq list [] = refl
kept_parts-eq list (p ∷ ps) = ground (arith, kept_parts-eq list ps)

stripped_any-eq :
    (list : UrlParamStripList) (ps : List (List ℕ)) → stripped_any list ps ≡ any (tracking list) ps
unfolding stripped_any any
stripped_any-eq list [] = refl
stripped_any-eq list (p ∷ ps) = ground (arith, stripped_any-eq list ps)

contains-join :
    (c d : ℕ) (ps : List (List ℕ)) → (d == c) ≡ false → Free c ps → contains c (join d ps) ≡ false
unfolding join contains
contains-join c d [] ne h = refl
contains-join c d (p ∷ []) ne h = h.0
contains-join c d (p ∷ q ∷ ps) ne h =
    ground
      (arith, contains-append c p (d ∷ join d (q ∷ ps)), contains-join c d (q ∷ ps) ne h.1, h.0)

cut_fragment :
    (query : List ℕ) (fragment : Option (List ℕ))
    → contains 35 query ≡ false
    → split_fragment (query ++ hash fragment) (cut_at 35 (query ++ hash fragment))
      ≡ (query, hash fragment)
cut_fragment query none h = rw (append-nil query, cut_at-none 35 query h) refl
cut_fragment query (some s) h = rw (cut_at-append 35 query s h) refl

no_query :
    (list : UrlParamStripList) (p : List ℕ) (ps : List (List ℕ))
    → is_empty (join 38 (p ∷ ps)) ≡ true
    → any (tracking list) (p ∷ ps) ≡ false
unfolding join any
no_query list [] [] h = refl
no_query list (x ∷ p) [] h = cc
no_query list [] (q ∷ ps) h = cc
no_query list (x ∷ p) (q ∷ ps) h = cc

strip_query-parts :
    (list : UrlParamStripList) (url prefix p : List ℕ) (ps : List (List ℕ)) (fragment : List ℕ)
    → Free 38 (p ∷ ps)
    → strip_query url prefix list (join 38 (p ∷ ps), fragment) ≡ (
        if any (tracking list) (p ∷ ps)
        then prefix ++ (query_text (filter (kept list) (p ∷ ps)) ++ fragment)
        else url)
unfolding strip_query
strip_query-parts list url prefix p ps fragment amp =
    rw (split_on-join 38 p ps amp, stripped_any-eq list (p ∷ ps), kept_parts-eq list (p ∷ ps))
      (ground (arith, no_query list p ps))

-- A URL of at most 4096 bytes with a query, against a list that is not empty: `prefix` has no `?`,
-- and no parameter an `&` or a `#`. If no parameter is listed the URL stays as it is. Otherwise
-- exactly the listed and the empty parameters go, the others stay as they are and in their order,
-- with the prefix and the fragment, and the `?` goes with the last parameter.
pub strip_tracking_params-parts :
    (list : UrlParamStripList) (url prefix p : List ℕ) (ps : List (List ℕ))
    (fragment : Option (List ℕ))
    → url ≡ prefix ++ 63 ∷ (join 38 (p ∷ ps) ++ hash fragment)
    → is_empty list.names ≡ false
    → length url ≤ 4096
    → contains 63 prefix ≡ false
    → Free 38 (p ∷ ps)
    → Free 35 (p ∷ ps)
    → strip_tracking_params url list ≡ (
        if any (tracking list) (p ∷ ps)
        then prefix ++ (query_text (filter (kept list) (p ∷ ps)) ++ hash fragment)
        else url)
unfolding strip_tracking_params
strip_tracking_params-parts list url prefix p ps fragment e named short clear amp sharp =
    let query = join 38 (p ∷ ps) in
    let cut : cut_at 63 url ≡ some (prefix, query ++ hash fragment) =
      rw e (cut_at-append 63 prefix (query ++ hash fragment) clear) in
    let short' : ltb 4096 (length url) ≡ false = ground arith in
    rw (short', named, cut, cut_fragment query fragment (contains-join 35 38 (p ∷ ps) refl sharp))
      (strip_query-parts list url prefix p ps (hash fragment) amp)
