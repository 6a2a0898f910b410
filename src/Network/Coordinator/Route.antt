-- ===== src/Network/Coordinator/Route.antt =====
-- crates/pb-network/src/coordinator.rs: `route`, the steps of a request in the order of the code. Each
-- step is a method on the coordinator; a step that fails leaves what the steps before it have done.
pub mod Gate
use dev_browse.Prelude.{
  ℕ, Bool, true, false, List, Option, none, some, Outcome, ok, err, panic, Method, ◌>>=◌, ◌>>◌,
  if◌then◌else◌,
}
use dev_browse.Network.Error.{NetworkError, cancelled, blocked, invalid_url}
use dev_browse.Network.Headers.{Header, scrub}
use dev_browse.Network.Blocklist.Rule.{BlockKind}
use dev_browse.Network.Blocklist.UrlStrip.{strip_tracking_params}
use dev_browse.Network.Blocklist.Live.{match_host, on_block}
use dev_browse.Network.Coordinator.{
  NetworkCoordinator, Request, Readings, RoutedRequest, authorize, header_policy_for,
}
use dev_browse.Network.Coordinator.Url.{enforce_https_only, parse_host}
use dev_browse.Network.Coordinator.Lru.{get_or_insert_default}

abbrev pub Step : Type 0 → Type 0
Step A = Method NetworkCoordinator NetworkError A

-- `?` on a result that does not change the coordinator.
abbrev pub try : {A : Type 0} → Outcome NetworkError A → Step A
try o c = (c, o)

abbrev pub return : {A : Type 0} → A → Step A
return a c = (c, ok a)

-- `if req.cancel.is_cancelled() { return Err(Cancelled) }`
abbrev pub check_cancelled : Bool → Step (Unit {0})
check_cancelled reading c = (c, if reading then err cancelled else ok tt)

abbrev pub host_or_invalid : Option (List ℕ) → Outcome NetworkError (List ℕ)
host_or_invalid none = err invalid_url
host_or_invalid (some host) = ok host

abbrev pub report : Option BlockKind → ℕ → Step (Unit {0})
report none canonical c = (c, ok tt)
report (some kind) canonical c = (
  record c { blocklist = on_block c.blocklist (record { kind = kind; partition_key = canonical }) },
  err blocked,
)

unfoldable pub check_blocklist : List ℕ → ℕ → Step (Unit {0})
check_blocklist host canonical c = report (match_host c.blocklist host) canonical c

abbrev pub stripped_url : List ℕ → Step (List ℕ)
stripped_url url c = (c, ok (strip_tracking_params url c.blocklist.state.url_strip))

abbrev pub scrubbed_headers : Request → List ℕ → List ℕ → Step (List Header)
scrubbed_headers req host final_url c =
    (c, ok (scrub (header_policy_for c req.mode) req.site_origin host final_url req.headers))

abbrev pub ensure_egress : ℕ → Step (Unit {0})
ensure_egress canonical c = (record c { egress = get_or_insert_default canonical c.egress }, ok tt)

-- The `RoutedRequest` at the end of `route`.
abbrev pub routed : Request → ℕ → List ℕ → List Header → RoutedRequest
routed req canonical final_url headers = record {
  partition_key = canonical;
  mode = req.mode;
  final_url = final_url;
  method = req.method;
  headers = headers;
  body = req.body;
}

unfoldable pub route : (List ℕ → ℕ) → Request → Readings → Step RoutedRequest
route sha256 req cancel = do
  canonical ← try (authorize sha256 req)
  check_cancelled cancel.first
  secure_url ← try (enforce_https_only req.url req.downgrade_approved)
  check_cancelled cancel.second
  host ← try (host_or_invalid (parse_host secure_url))
  check_blocklist host canonical
  final_url ← stripped_url secure_url
  check_cancelled cancel.third
  headers ← scrubbed_headers req host final_url
  check_cancelled cancel.fourth
  ensure_egress canonical
  return (routed req canonical final_url headers)
