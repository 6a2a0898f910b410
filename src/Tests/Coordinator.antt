-- ===== src/Tests/Coordinator.antt =====
-- The theorems on the coordinator of crates/pb-network and its parts at concrete requests.
use dev_browse.Prelude.{
  ℕ, ◌+◌, ◌*◌, ◌≤◌, ◌<◌, ◌≡◌, refl, Bool, true, false, List, [], ◌∷◌, ◌++◌, Option, none, some,
  Outcome, ok, err, arith, min, is_empty, any, filter, if◌then◌else◌, ◌&&◌, ℕ_discrete,
}
use dev_browse.Prelude.Map.{lookup}
use dev_browse.Prelude.Text.{bytes, same_text, any_same}
use dev_browse.Config.{standard, strict}
use dev_browse.Network.Blocklist.UrlStrip.{UrlParamStripList, strip_tracking_params, query_text}
use dev_browse.Network.Blocklist.UrlStrip.Parts.{hash, kept, tracking, strip_tracking_params-parts}
use dev_browse.Network.PartitionKey.{hashed}
use dev_browse.Network.PartitionKey.Framing.{hashed_injective}
use dev_browse.Network.Headers.{Header, standard_policy, override_names, strip_names, scrub}
use dev_browse.Network.Headers.Scrub.{values, accept, injected, values-scrub}
use dev_browse.Network.Error.{NetworkError}
use dev_browse.Network.Dns.Wire.{type_a, a_record}
use dev_browse.Network.Dns.Cache.{
  DnsCache, ResolveResult, max_positive_ttl, nanos_per_sec, new as new_cache,
}
use dev_browse.Network.Dns.SingleFlight.{
  Event, calls, completes, leader_dropped, new as no_flights, step as flight_step,
  run as flight_run,
}
use dev_browse.Network.Dns.SingleFlight.Flights.{replies, callers, run-callers}
use dev_browse.Network.Coordinator.{
  NetworkCoordinator, Request, Readings, RoutedRequest, ResolveQuery, Answer, Records, CacheKey,
  bootstrap, resolve, set_resolver,
}
use dev_browse.Network.Coordinator.Url.{parse_host}
use dev_browse.Network.Coordinator.Url.Host.{user_text, port_text, parse_host-parts}
use dev_browse.Network.Coordinator.Lru.{len}
use dev_browse.Network.Coordinator.Lru.Bounds.{LruOk}
use dev_browse.Network.Coordinator.Route.{route}
use dev_browse.Network.Coordinator.Route.Gate.{Passed, with_egress, envelope, route-Passed}
use dev_browse.Network.Coordinator.Runs.{Call, routes, drops, run, run-LruOk}
use dev_browse.Network.Coordinator.Resolve.{resolve_again}

abbrev strip_list : UrlParamStripList
strip_list = record { names = bytes "utm_id" ∷ [] }

abbrev tracked_url : List ℕ
tracked_url = bytes "https://a.b/?UTM_ID=1&q=2#x"

stripped : strip_tracking_params tracked_url strip_list ≡ bytes "https://a.b/?q=2#x"
unfolding strip_tracking_params dev_browse.Prelude.Text.cut_at
    dev_browse.Network.Blocklist.UrlStrip.strip_query
    dev_browse.Network.Blocklist.UrlStrip.stripped_any dev_browse.Prelude.Text.split_on
    dev_browse.Network.Blocklist.UrlStrip.is_listed any_same same_text
    dev_browse.Network.Blocklist.Rule.to_ascii_lowercase
    dev_browse.Network.Blocklist.UrlStrip.key_of query_text
    dev_browse.Network.Blocklist.UrlStrip.kept_parts dev_browse.Prelude.Text.join
stripped = refl

-- A `?` inside a fragment is taken for a query.
stripped_fragment :
    strip_tracking_params (bytes "https://a.b/#x?utm_id=1") strip_list ≡ bytes "https://a.b/#x"
unfolding strip_tracking_params dev_browse.Prelude.Text.cut_at
    dev_browse.Network.Blocklist.UrlStrip.strip_query
    dev_browse.Network.Blocklist.UrlStrip.stripped_any dev_browse.Prelude.Text.split_on
    dev_browse.Network.Blocklist.UrlStrip.is_listed any_same same_text
    dev_browse.Network.Blocklist.Rule.to_ascii_lowercase
    dev_browse.Network.Blocklist.UrlStrip.key_of query_text
    dev_browse.Network.Blocklist.UrlStrip.kept_parts
stripped_fragment = refl

strip_tracking_params-parts_example : strip_tracking_params tracked_url strip_list ≡ (
    if any (tracking strip_list) (bytes "UTM_ID=1" ∷ bytes "q=2" ∷ [])
    then bytes "https://a.b/"
      ++ (query_text (filter (kept strip_list) (bytes "UTM_ID=1" ∷ bytes "q=2" ∷ []))
          ++ hash (some (bytes "x")))
    else tracked_url)
unfolding dev_browse.Prelude.Text.join dev_browse.Prelude.contains
strip_tracking_params-parts_example =
    strip_tracking_params-parts strip_list tracked_url (bytes "https://a.b/") (bytes "UTM_ID=1")
      (bytes "q=2" ∷ []) (some (bytes "x")) refl refl (omega arith) refl (refl, (refl, tt))
      (refl, (refl, tt))

abbrev uuid : ℕ → List ℕ
uuid n = n ∷ 0 ∷ 0 ∷ 0 ∷ 0 ∷ 0 ∷ 0 ∷ 0 ∷ 0 ∷ 0 ∷ 0 ∷ 0 ∷ 0 ∷ 0 ∷ 0 ∷ 0 ∷ []

hashed_injective_example : (bytes "a.b" ≡ bytes "a.b") × (uuid 1 ≡ uuid 1) × (uuid 2 ≡ uuid 2)
hashed_injective_example =
    hashed_injective (bytes "a.b") (bytes "a.b") (uuid 1) (uuid 1) (uuid 2) (uuid 2) (omega arith)
      (omega arith) refl refl refl

abbrev renderer_headers : List Header
renderer_headers =
    (bytes "Cookie", bytes "id=1") ∷ (bytes "user-agent", bytes "x") ∷ (bytes "X-A", bytes "y") ∷ []

values-scrub_example :
    values
      (bytes "user-agent")
      (scrub standard_policy (bytes "a.b") (bytes "c.d") (bytes "https://c.d/") renderer_headers)
    ≡ (if any_same (bytes "user-agent") override_names
        then values
            (bytes "user-agent")
            (injected standard_policy (bytes "a.b") (bytes "c.d") (bytes "https://c.d/"))
        else if any_same (bytes "user-agent") strip_names
        then []
        else if same_text accept (bytes "user-agent")
            && is_empty (values (bytes "user-agent") renderer_headers)
        then standard_policy.accept_default ∷ []
        else values (bytes "user-agent") renderer_headers)
values-scrub_example =
    values-scrub (bytes "user-agent") standard_policy (bytes "a.b") (bytes "c.d")
      (bytes "https://c.d/") renderer_headers

-- A hash function for the runs: every partition has the key 7.
abbrev seven : List ℕ → ℕ
seven s = 7

abbrev coordinator : NetworkCoordinator
coordinator = record {
  default_mode = standard;
  egress = record { entries = []; order = []; cap = 16 };
  dns_cache = record { inner = [] };
  resolver = none;
  fallback = record { system_dns_opt_in = false };
  blocklist = dev_browse.Network.Blocklist.Live.empty_list;
  header_policy_standard = dev_browse.Network.Headers.standard_policy;
  header_policy_strict = dev_browse.Network.Headers.strict_policy;
}

booted : bootstrap true (ok tt) standard ≡ ok coordinator
unfolding bootstrap dev_browse.Network.Coordinator.Lru.new new_cache
booted = refl

abbrev request : Request
request = record {
  site_origin = bytes "a.b";
  identity_profile_id = uuid 1;
  context_id = uuid 2;
  declared_key = 7;
  mode = standard;
  url = bytes "https://c.d/";
  method = bytes "GET";
  headers = [];
  body = [];
  downgrade_approved = false;
}

abbrev running : Readings
running = record { first = false; second = false; third = false; fourth = false }

abbrev sent : RoutedRequest
sent = envelope coordinator request (bytes "c.d") (bytes "https://c.d/") 7

routed_request : route seven request running coordinator ≡ (with_egress coordinator 7, ok sent)
unfolding route dev_browse.Network.Coordinator.authorize dev_browse.Network.PartitionKey.derive
    dev_browse.Network.Coordinator.Url.enforce_https_only
    dev_browse.Network.Coordinator.Url.has_ascii_prefix_ci
    dev_browse.Network.Coordinator.Url.after_scheme dev_browse.Network.Coordinator.Url.authority_of
    dev_browse.Network.Coordinator.Url.after_userinfo
    dev_browse.Network.Coordinator.Url.ends_authority dev_browse.Network.Coordinator.Url.strip_port
    dev_browse.Network.Coordinator.Url.in_authority same_text
    dev_browse.Network.Blocklist.Rule.to_ascii_lowercase dev_browse.Network.Blocklist.Rule.lower
    dev_browse.Prelude.Fallible.take parse_host dev_browse.Config.Loader.starts_with
    dev_browse.Prelude.Text.cut_at dev_browse.Prelude.Fallible.drop
    dev_browse.Network.Blocklist.Live.match_host dev_browse.Network.Blocklist.Live.empty_list
    dev_browse.Network.Blocklist.Live.empty_state
    dev_browse.Network.Coordinator.Route.check_blocklist
    dev_browse.Network.Blocklist.RadixTree.match_host
    dev_browse.Network.Blocklist.RadixTree.match_host_internal
    dev_browse.Network.Blocklist.RadixTree.labels dev_browse.Network.Blocklist.RadixTree.split_dots
    dev_browse.Network.Blocklist.RadixTree.drop_empty dev_browse.Network.Blocklist.RadixTree.descend
    dev_browse.Network.Blocklist.RadixTree.get_child dev_browse.Network.Blocklist.RadixTree.empty
routed_request = refl

route-Passed_example : Passed seven coordinator (with_egress coordinator 7) request running sent
route-Passed_example =
    route-Passed seven coordinator (with_egress coordinator 7) request running sent routed_request

abbrev some_calls : List Call
some_calls = routes request running ∷ drops 7 ∷ routes request running ∷ []

run-LruOk_example :
    LruOk (run seven some_calls coordinator).egress
    × (len (run seven some_calls coordinator).egress ≤ 16)
run-LruOk_example = run-LruOk seven true (ok tt) standard coordinator some_calls booted

-- Two `@`: what is asked of the blocklist is then no host name.
parse_two_ats : parse_host (bytes "https://u@v@evil.com/") ≡ some (bytes "v@evil.com")
unfolding parse_host dev_browse.Network.Coordinator.Url.after_scheme
    dev_browse.Config.Loader.starts_with dev_browse.Network.Coordinator.Url.authority_of
    dev_browse.Network.Coordinator.Url.after_userinfo dev_browse.Prelude.Text.cut_at
    dev_browse.Prelude.Fallible.drop dev_browse.Network.Coordinator.Url.in_authority
    dev_browse.Prelude.contains dev_browse.Network.Coordinator.Url.ends_authority
    dev_browse.Network.Coordinator.Url.strip_port
parse_two_ats = refl

parse_host-parts_example :
    parse_host (
      bytes "https"
      ++ (bytes "://"
          ++ (user_text (some (bytes "u"))
              ++ ((bytes "c.d" ++ port_text (some (bytes "8"))) ++ bytes "/@"))))
    ≡ some (bytes "c.d")
unfolding dev_browse.Prelude.contains dev_browse.Network.Coordinator.Url.in_authority
    dev_browse.Network.Coordinator.Url.ends_authority
parse_host-parts_example =
    parse_host-parts (bytes "https") (bytes "c.d") (bytes "/@") (some (bytes "u"))
      (some (bytes "8")) refl (refl, refl) (refl, refl) refl refl refl (refl, refl) refl

abbrev address : ResolveResult Records
address = record {
  records = a_record (record { a = 1; b = 2; c = 3; d = 4 }) ∷ [];
  ttl_seconds = 60;
}

abbrev answers : ResolveQuery → Answer
answers q = ok address

abbrev resolving : NetworkCoordinator
resolving = set_resolver coordinator answers

abbrev refuses : ResolveQuery → Answer
refuses q = err NetworkError.resolve_timeout

resolve_again_example :
    let first = resolve resolving 7 (bytes "c.d") type_a standard 0 0 0 in
    let second = resolve (set_resolver first.0 refuses) 7 (bytes "c.d") type_a strict 9 9 9 in
    (first.1 ≡ ok address)
    × (n : ℕ) × (n ≤ min 60 max_positive_ttl)
    × (second.1 ≡ ok (record { records = address.records; ttl_seconds = n }))
unfolding dev_browse.Network.Dns.Cache.get lookup set_resolver
resolve_again_example =
    resolve_again resolving 7 (bytes "c.d") type_a standard strict 0 0 0 9 9 9
      (record { inner = [] }) answers refuses address refl refl refl (omega arith) (omega arith)
      (omega arith)

-- Three tasks ask for key 5.
abbrev three_calls : List (Event ℕ ℕ)
three_calls = calls 1 5 ∷ calls 2 5 ∷ calls 3 5 ∷ []

run-callers_example :
    let s = flight_run ℕ_discrete three_calls no_flights in
    let t = flight_step ℕ_discrete (completes 5 9) s in
    (t.delivered ≡ s.delivered ++ replies 9 (callers ℕ_discrete 5 three_calls []))
    × (lookup ℕ_discrete 5 t.inflight ≡ none)
    × (lookup ℕ_discrete 5 t.leaders ≡ none)
run-callers_example = run-callers ℕ_discrete three_calls 5 9 (tt, (tt, (tt, tt)))

three_callers : callers ℕ_discrete 5 three_calls [] ≡ 1 ∷ 2 ∷ 3 ∷ []
unfolding callers ℕ_discrete
three_callers = refl

-- After the drop of the leader the slot stays, with nobody who would answer its waiters.
dropped_leader :
    let s =
      flight_run ℕ_discrete
        (calls 1 5 ∷ leader_dropped 5 ∷ calls 2 5 ∷ [])
        (no_flights {K = ℕ} {O = ℕ}) in
    (lookup ℕ_discrete 5 s.inflight ≡ some (2 ∷ [])) × (lookup ℕ_discrete 5 s.leaders ≡ none)
unfolding lookup flight_run flight_step no_flights dev_browse.Prelude.Map.insert ℕ_discrete
    dev_browse.Prelude.Map.erase
dropped_leader = (refl, refl)
