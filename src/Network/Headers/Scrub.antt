-- ===== src/Network/Headers/Scrub.antt =====
-- The values that `scrub` lets out under each header name.
use mathlib.Core.List.{append-nil}
use dev_browse.Prelude.{
  ℕ, ◌≡◌, refl, ◌∙◌, Bool, true, false, not, ◌&&◌, List, [], ◌∷◌, ◌++◌, Option, none, some, arith,
  if◌then◌else◌, is_empty,
}
use dev_browse.Prelude.Text.{bytes, same_text, any_same, same_text_eq}
use dev_browse.Network.Blocklist.Rule.{to_ascii_lowercase, lower}
use dev_browse.Network.Headers.{
  Header, HeaderPolicy, strip_names, override_names, referer_header, policy_headers, pass_headers,
  supplies_accept, compute_referer, scrub,
}

-- The values under a name that is given in lower case, in their order.
unfoldable pub values : List ℕ → List Header → List (List ℕ)
values n [] = []
values n ((name, value) ∷ headers) =
    let rest = values n headers in
    if same_text (to_ascii_lowercase name) n then value ∷ rest else rest

abbrev pub accept : List ℕ
accept = bytes "accept"

values-append : (n : List ℕ) (a b : List Header) → values n (a ++ b) ≡ values n a ++ values n b
unfolding values
values-append n [] b = refl
values-append n ((name, value) ∷ a) b = ground (arith, values-append n a b)

values-pass_headers :
    (n : List ℕ) (headers : List Header)
    → values n (pass_headers headers) ≡ (
        if any_same n override_names
        then []
        else if any_same n strip_names
        then []
        else values n headers)
unfolding values pass_headers
values-pass_headers n [] = ground arith
values-pass_headers n ((name, value) ∷ headers) =
    ground (arith, values-pass_headers n headers, same_text_eq (to_ascii_lowercase name) n)

-- Neither list has `accept`.
accept_free :
    (n : List ℕ)
    → n ≡ accept
    → (any_same n strip_names ≡ false) × (any_same n override_names ≡ false)
unfolding any_same same_text strip_names override_names
accept_free n e = rw e (refl, refl)

supplies_accept-values :
    (headers : List Header) → supplies_accept headers ≡ not (is_empty (values accept headers))
unfolding supplies_accept values
supplies_accept-values [] = refl
supplies_accept-values ((name, value) ∷ headers) =
    let n = to_ascii_lowercase name in
    ground (arith, supplies_accept-values headers, same_text_eq n accept, accept_free n)

-- The names that the policy injects are override names.
overridden :
    (s : List ℕ)
    → any_same s override_names ≡ true
    → (n : List ℕ) → same_text s n ≡ true
    → any_same n override_names ≡ true
overridden s h n e = rw (same_text_eq s n e) at h

-- A header with an override name has no value under any other name.
values_injected :
    (n name value : List ℕ) (headers : List Header)
    → any_same (to_ascii_lowercase name) override_names ≡ true
    → any_same n override_names ≡ false
    → values n ((name, value) ∷ headers) ≡ values n headers
unfolding values
values_injected n name value headers h f = ground (arith, overridden (to_ascii_lowercase name) h n)

values-referer_header :
    (n : List ℕ) (referer : Option (List ℕ))
    → any_same n override_names ≡ false
    → values n (referer_header referer) ≡ []
unfolding override_names any_same same_text to_ascii_lowercase lower
values-referer_header n none f = unfold values in refl
values-referer_header n (some r) f =
    values_injected n (bytes "Referer") r [] refl f ∙ unfold values in refl

values_optional :
    (n name value : List ℕ) (b : Bool) (headers : List Header)
    → any_same (to_ascii_lowercase name) override_names ≡ true
    → any_same n override_names ≡ false
    → values n ((if b then (name, value) ∷ [] else []) ++ headers) ≡ values n headers
values_optional n name value true headers h f = values_injected n name value headers h f
values_optional n name value false headers h f = refl

values-policy_headers :
    (n : List ℕ) (policy : HeaderPolicy) (referer : Option (List ℕ))
    → any_same n override_names ≡ false
    → values n (policy_headers policy referer) ≡ []
unfolding policy_headers override_names any_same same_text to_ascii_lowercase lower
values-policy_headers n policy referer f =
    values_injected n (bytes "User-Agent") policy.user_agent _ refl f
    ∙ values_injected n (bytes "Accept-Language") policy.accept_language _ refl f
    ∙ values_injected n (bytes "Accept-Encoding") policy.accept_encoding _ refl f
    ∙ values_optional n (bytes "DNT") (bytes "1") policy.send_dnt _ refl f
    ∙ values_optional n (bytes "Sec-GPC") (bytes "1") policy.send_sec_gpc _ refl f
    ∙ values-referer_header n referer f

values-default_accept :
    (n default : List ℕ) (b : Bool)
    → values n (if b then [] else (bytes "Accept", default) ∷ [])
      ≡ (if b then [] else if same_text accept n then default ∷ [] else [])
unfolding values to_ascii_lowercase lower
values-default_accept n default true = refl
values-default_accept n default false = refl

abbrev pub injected : HeaderPolicy → List ℕ → List ℕ → List ℕ → List Header
injected policy site_origin target_host target_url =
    policy_headers policy (compute_referer policy.referer site_origin target_host target_url)

-- What a server sees under a name, whatever the renderer sent: under an override name exactly what the
-- policy injects, under a stripped name nothing, under `accept` what the renderer sent or else the
-- default of the policy, and under any other name what the renderer sent, in its order; a name of the
-- `Sec-CH-UA-*` or `X-Forwarded-*` families that the list of stripped names does not hold is such a name.
pub values-scrub :
    (n : List ℕ) (policy : HeaderPolicy) (origin host url : List ℕ) (headers : List Header)
    → values n (scrub policy origin host url headers) ≡ (
        if any_same n override_names
        then values n (injected policy origin host url)
        else if any_same n strip_names
        then []
        else if same_text accept n && is_empty (values n headers)
        then policy.accept_default ∷ []
        else values n headers)
unfolding scrub
values-scrub n policy origin host url headers =
    rw
      (
        values-append n (injected policy origin host url) _,
        values-append n (pass_headers headers) _,
        values-pass_headers n headers,
        supplies_accept-values headers,
        values-default_accept n,
      )
      (ground (
        arith,
        values-policy_headers n policy (compute_referer policy.referer origin host url),
        append-nil (values n (injected policy origin host url)),
        append-nil (values n headers),
        same_text_eq accept n,
        accept_free n,
      ))
