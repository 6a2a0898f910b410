-- ===== src/Network/Coordinator/Route/Gate.antt =====
-- What a request has passed when `route` lets it out, and what a request that it refuses leaves.
use dev_browse.Prelude.{
  ℕ, ◌≡◌, refl, ap, sym, ◌∙◌, ◌⊎◌, Bool, true, false, List, Option, none, some, Outcome, ok, err,
  panic, next, arith,
}
use dev_browse.Prelude.Text.{bytes}
use dev_browse.Network.Error.{NetworkError}
use dev_browse.Network.PartitionKey.{derive}
use dev_browse.Network.Headers.{scrub}
use dev_browse.Network.Blocklist.Rule.{BlockKind}
use dev_browse.Network.Blocklist.UrlStrip.{strip_tracking_params}
use dev_browse.Network.Blocklist.Live.{match_host}
use dev_browse.Network.Coordinator.{
  NetworkCoordinator, Request, Readings, RoutedRequest, authorize, header_policy_for,
}
use dev_browse.Network.Coordinator.Url.{has_ascii_prefix_ci, enforce_https_only, parse_host}
use dev_browse.Network.Coordinator.Lru.{get_or_insert_default}
use dev_browse.Network.Coordinator.Route.{
  check_cancelled, host_or_invalid, report, check_blocklist, route,
}

-- A step that leaves the coordinator as it is, in a run that ends well.
past :
    {S E A B : Type 0} (s s' : S) (o : Outcome E A) (f : A → S → S × Outcome E B) (b : B)
    → next (s, o) f ≡ (s', ok b)
    → (a : A) × (o ≡ ok a) × (f a s ≡ (s', ok b))
past s s' (ok a) f b e = (a, refl, e)
past s s' (err x) f b e = cc
past s s' panic f b e = cc

past_check :
    (reading : Bool) (c c' : NetworkCoordinator) {B : Type 0}
    (f : Unit {0} → NetworkCoordinator → NetworkCoordinator × Outcome NetworkError B) (b : B)
    → next (check_cancelled reading c) f ≡ (c', ok b)
    → (reading ≡ false) × (f tt c ≡ (c', ok b))
past_check true c c' f b e = cc
past_check false c c' f b e = (refl, e)

-- HTTPS, or HTTP that the user has approved.
abbrev pub Secure : List ℕ → Bool → Type 0
Secure url downgrade_approved =
    (has_ascii_prefix_ci url (bytes "https://") ≡ true)
    ⊎ ((has_ascii_prefix_ci url (bytes "http://") ≡ true) × (downgrade_approved ≡ true))

enforce_https_only-Secure :
    (url : List ℕ) (approved : Bool) (url' : List ℕ)
    → enforce_https_only url approved ≡ ok url'
    → Secure url approved × (url' ≡ url)
unfolding enforce_https_only
enforce_https_only-Secure url approved url' e = ground arith

host_or_invalid_ok :
    (o : Option (List ℕ)) (host : List ℕ) → host_or_invalid o ≡ ok host → o ≡ some host
host_or_invalid_ok none host e = cc
host_or_invalid_ok (some h) host e = cc

past_report :
    (o : Option BlockKind) (key : ℕ) (c c' : NetworkCoordinator) {B : Type 0}
    (f : Unit {0} → NetworkCoordinator → NetworkCoordinator × Outcome NetworkError B) (b : B)
    → next (report o key c) f ≡ (c', ok b)
    → (o ≡ none) × (f tt c ≡ (c', ok b))
past_report none key c c' f b e = (refl, e)
past_report (some kind) key c c' f b e = cc

-- The egress state of a partition is there, and the most recently used.
abbrev pub with_egress : NetworkCoordinator → ℕ → NetworkCoordinator
with_egress c key = record c { egress = get_or_insert_default key c.egress }

-- What goes to the network for a URL with a host: stripped, and with scrubbed headers.
abbrev pub envelope : NetworkCoordinator → Request → List ℕ → List ℕ → ℕ → RoutedRequest
envelope c req host url key = record {
  partition_key = key;
  mode = req.mode;
  final_url = strip_tracking_params url c.blocklist.state.url_strip;
  method = req.method;
  headers =
      scrub (header_policy_for c req.mode) req.site_origin host
        (strip_tracking_params url c.blocklist.state.url_strip) req.headers;
  body = req.body;
}

-- What a request that went through has passed, and what the network gets of it.
pub record Passed (sha256 : List ℕ → ℕ) (c c' : NetworkCoordinator) (req : Request)
    (cancel : Readings) (out : RoutedRequest) : Type 0 where
  pub host : List ℕ
  pub authorized :
      derive sha256 req.site_origin req.identity_profile_id req.context_id ≡ req.declared_key
  pub running :
      (cancel.first ≡ false)
      × (cancel.second ≡ false)
      × (cancel.third ≡ false)
      × (cancel.fourth ≡ false)
  pub secure : Secure req.url req.downgrade_approved
  pub has_host : parse_host req.url ≡ some host
  pub not_blocked : match_host c.blocklist host ≡ none
  pub egress_only : c' ≡ with_egress c req.declared_key
  pub sent : out ≡ envelope c req host req.url req.declared_key

authorize_ok :
    (sha256 : List ℕ → ℕ) (req : Request) (key : ℕ)
    → authorize sha256 req ≡ ok key
    → (derive sha256 req.site_origin req.identity_profile_id req.context_id ≡ req.declared_key)
      × (key ≡ req.declared_key)
unfolding authorize
authorize_ok sha256 req key e = ground arith

envelope_of :
    (c' : NetworkCoordinator) (out : RoutedRequest) (x : NetworkCoordinator) (y : RoutedRequest)
    → ◌≡◌ {A = NetworkCoordinator × Outcome NetworkError RoutedRequest} (x, ok y) (c', ok out)
    → out ≡ y
envelope_of c' out x y e = cc (ap (λ p. p.1) e)

ended :
    (c c' : NetworkCoordinator) (req : Request) (host url : List ℕ) (key : ℕ) (out : RoutedRequest)
    → key ≡ req.declared_key
    → url ≡ req.url
    → ◌≡◌ {A = NetworkCoordinator × Outcome NetworkError RoutedRequest}
        (with_egress c key, ok (envelope c req host url key))
        (c', ok out)
    → (c' ≡ with_egress c req.declared_key) × (out ≡ envelope c req host req.url req.declared_key)
ended c c' req host url key out ek eu e =
    (sym (ap (λ p. p.0) e) ∙ ap (with_egress c) ek, cc (envelope_of c' out _ _ e, ek, eu))

-- A request leaves the coordinator only if its partition key is the one that its tab metadata give,
-- no reading of the cancellation flag was set, its URL is HTTPS or an approved HTTP, it has a host
-- and the blocklist does not match it. What leaves is the stripped URL and the scrubbed headers,
-- with method and body as they came, and the coordinator has only the egress state of that
-- partition touched.
pub route-Passed :
    (sha256 : List ℕ → ℕ) (c c' : NetworkCoordinator) (req : Request) (cancel : Readings)
    (out : RoutedRequest)
    → route sha256 req cancel c ≡ (c', ok out)
    → Passed sha256 c c' req cancel out
unfolding route check_blocklist
route-Passed sha256 c c' req cancel out e =
    let (key, e1, r1) = past c c' (authorize sha256 req) _ out e in
    let (f1, r2) = past_check cancel.first c c' _ out r1 in
    let (url, e3, r3) = past c c' (enforce_https_only req.url req.downgrade_approved) _ out r2 in
    let (f2, r4) = past_check cancel.second c c' _ out r3 in
    let (host, e5, r5) = past c c' (host_or_invalid (parse_host url)) _ out r4 in
    let (free, r6) = past_report (match_host c.blocklist host) key c c' _ out r5 in
    let (f3, r7) = past_check cancel.third c c' _ out r6 in
    let (f4, r8) = past_check cancel.fourth c c' _ out r7 in
    let (secure, same) = enforce_https_only-Secure req.url req.downgrade_approved url e3 in
    let (derived, declared) = authorize_ok sha256 req key e1 in
    let (state, sent) = ended c c' req host url key out declared same r8 in
    record {
      host = host;
      authorized = derived;
      running = (f1, f2, f3, f4);
      secure = secure;
      has_host = cc (host_or_invalid_ok (parse_host url) host e5, same);
      not_blocked = free;
      egress_only = state;
      sent = sent;
    }
