-- ===== src/Network/Coordinator/Runs.antt =====
-- Every sequence of calls of the coordinator, from `bootstrap` on.
use dev_browse.Prelude.{
  ℕ, ◌≤◌, ◌≡◌, refl, sym, ap, subst, not, ◌∙◌, Bool, List, [], ◌∷◌, ok, err, panic, Outcome, next,
  ◌>>=◌, arith, Option, none, some,
}
use dev_browse.Prelude.Fallible.{guard_ok, bind_ok}
use dev_browse.Config.{Mode, standard, strict}
use dev_browse.Network.Error.{NetworkError, resolve_nx_domain}
use dev_browse.Network.Headers.{HeaderPolicy}
use dev_browse.Network.Blocklist.Live.{Blocklist}
use dev_browse.Network.Blocklist.Rule.{BlockKind}
use dev_browse.Network.Dns.Fallback.{FallbackPolicy}
use dev_browse.Network.Dns.Wire.{QueryType}
use dev_browse.Network.Coordinator.{
  NetworkCoordinator, Request, Readings, ResolveQuery, Answer, bootstrap, set_resolver,
  set_fallback_policy, set_blocklist, set_header_policy, store_policy, drop_partition, keep_answer,
  resolve, authorize,
}
use dev_browse.Network.Coordinator.Lru.{PartitionLru, new, len, remove}
use dev_browse.Network.Coordinator.Lru.Bounds.{
  LruOk, new-LruOk, get_or_insert_default-LruOk, get_or_insert_default-cap, remove-LruOk,
}
use dev_browse.Network.Coordinator.Route.{
  Step, try, check_cancelled, host_or_invalid, stripped_url, scrubbed_headers, ensure_egress,
  routed, route, check_blocklist, report,
}
use dev_browse.Network.Coordinator.Url.{enforce_https_only, parse_host}
use dev_browse.Network.Blocklist.Live.{match_host}
use dev_browse.Network.Dns.Cache.{DnsCache, get}
use dev_browse.Network.Dns.Wire.{type_code}
use dev_browse.Network.Coordinator.{CacheKey, Records, cache_key_discrete, ask, resolve_from}

pub data Call : Type 0 where
  routes : Request → Readings → Call
  resolves : ℕ → List ℕ → QueryType → Mode → ℕ → ℕ → ℕ → Call
  drops : ℕ → Call
  set_resolvers : (ResolveQuery → Answer) → Call
  set_fallbacks : FallbackPolicy → Call
  set_blocklists : Blocklist → Call
  set_policies : HeaderPolicy → Call

unfoldable pub step : (List ℕ → ℕ) → Call → NetworkCoordinator → NetworkCoordinator
step sha256 (routes req cancel) c = (route sha256 req cancel c).0
step sha256 (resolves partition qname qtype mode now later stored_at) c =
    (resolve c partition qname qtype mode now later stored_at).0
step sha256 (drops key) c = drop_partition c key
step sha256 (set_resolvers resolver) c = set_resolver c resolver
step sha256 (set_fallbacks policy) c = set_fallback_policy c policy
step sha256 (set_blocklists blocklist) c = set_blocklist c blocklist
step sha256 (set_policies policy) c = set_header_policy c policy

unfoldable pub run : (List ℕ → ℕ) → List Call → NetworkCoordinator → NetworkCoordinator
run sha256 [] c = c
run sha256 (call ∷ calls) c = run sha256 calls (step sha256 call c)

-- What every step keeps of the egress map.
abbrev pub Kept : NetworkCoordinator → Type 0
Kept c = LruOk c.egress × (c.egress.cap ≡ 16)

record Keeps {A : Type 0} (m : Step A) : Type 0 where
  keeps : (c : NetworkCoordinator) → Kept c → Kept (m c).0

Kept-next :
    {A B : Type 0} (r : NetworkCoordinator × Outcome NetworkError A) (f : A → Step B)
    → Kept r.0
    → ((a : A) → Keeps (f a))
    → Kept (next r f).0
Kept-next (c, ok a) f h k = (k a).keeps c h
Kept-next (c, err e) f h k = h
Kept-next (c, panic) f h k = h

Keeps-bind :
    {A B : Type 0} (m : Step A) {f : A → Step B}
    → Keeps m
    → ((a : A) → Keeps (f a))
    → Keeps (m >>= f)
Keeps-bind m h k = record { keeps = λ c kept. Kept-next _ _ (h.keeps c kept) k }

-- A step that changes nothing.
idle : {A : Type 0} (o : NetworkCoordinator → Outcome NetworkError A) → Keeps (λ c. (c, o c))
idle o = record { keeps = λ c h. h }

report-Keeps :
    (o : Option BlockKind) (key : ℕ) (c : NetworkCoordinator) → Kept c → Kept (report o key c).0
report-Keeps none key c h = h
report-Keeps (some kind) key c h = h

check_blocklist-Keeps : (host : List ℕ) (key : ℕ) → Keeps (check_blocklist host key)
unfolding check_blocklist
check_blocklist-Keeps host key = record {
  keeps = λ c h. report-Keeps (match_host c.blocklist host) key c h;
}

ensure_egress-Keeps : (key : ℕ) → Keeps (ensure_egress key)
ensure_egress-Keeps key = record {
  keeps = λ c h.
      (get_or_insert_default-LruOk key c.egress h.0, get_or_insert_default-cap key c.egress ∙ h.1);
}

route-Keeps :
    (sha256 : List ℕ → ℕ) (req : Request) (cancel : Readings) → Keeps (route sha256 req cancel)
unfolding route
route-Keeps sha256 req cancel = Keeps-bind (try (authorize sha256 req)) (idle _) (λ key.
    Keeps-bind (check_cancelled cancel.first) (idle _) (λ _.
      Keeps-bind (try (enforce_https_only req.url req.downgrade_approved)) (idle _) (λ url.
        Keeps-bind (check_cancelled cancel.second) (idle _) (λ _.
          Keeps-bind (try (host_or_invalid (parse_host url))) (idle _) (λ host.
            Keeps-bind (check_blocklist host key) (check_blocklist-Keeps host key) (λ _.
              Keeps-bind (stripped_url url) (idle _) (λ final_url.
                Keeps-bind (check_cancelled cancel.third) (idle _) (λ _.
                  Keeps-bind (scrubbed_headers req host final_url) (idle _) (λ headers.
                    Keeps-bind (check_cancelled cancel.fourth) (idle _) (λ _.
                      Keeps-bind (ensure_egress key) (ensure_egress-Keeps key)
                        (λ _. idle (λ _. ok (routed req key final_url headers)))))))))))))

keep_answer-egress :
    (c : NetworkCoordinator) (partition : ℕ) (key : CacheKey) (stored_at : ℕ) (a : Answer)
    → (keep_answer c partition key stored_at a).0.egress ≡ c.egress
unfolding keep_answer
keep_answer-egress c partition key stored_at (ok r) = refl
keep_answer-egress c partition key stored_at panic = refl
keep_answer-egress c partition key stored_at (err resolve_nx_domain) = refl
keep_answer-egress c partition key stored_at (err _) = refl

resolve-egress :
    (c : NetworkCoordinator) (partition : ℕ) (qname : List ℕ) (qtype : QueryType) (mode : Mode)
    (now later stored_at : ℕ)
    → (resolve c partition qname qtype mode now later stored_at).0.egress ≡ c.egress
unfolding resolve
resolve-egress c partition qname qtype mode now later stored_at =
    found (get cache_key_discrete c.dns_cache partition (qname, type_code qtype) now later)
  where
    found :
        (r : DnsCache CacheKey Records NetworkError × Option Answer)
        → (resolve_from c
            (record { partition_key = partition; qname = qname; qtype = qtype; mode = mode })
            stored_at
            r).0.egress
          ≡ c.egress
    found (cache, some cached) = refl
    found (cache, none) = asked c.resolver
      where
        asked :
            (o : Option (ResolveQuery → Answer))
            → (ask
                (record c { dns_cache = cache })
                o
                (record { partition_key = partition; qname = qname; qtype = qtype; mode = mode })
                stored_at).0.egress
              ≡ c.egress
        asked none = refl
        asked (some resolver) = keep_answer-egress _ partition (qname, type_code qtype) stored_at _

store_policy-egress :
    (mode : Mode) (policy : HeaderPolicy) (c : NetworkCoordinator)
    → (store_policy mode policy c).egress ≡ c.egress
store_policy-egress standard policy c = refl
store_policy-egress strict policy c = refl

Kept-same :
    (c : NetworkCoordinator) (l : PartitionLru) → Kept c → l ≡ c.egress → LruOk l × (l.cap ≡ 16)
Kept-same c l h e = (subst LruOk (sym e) h.0, ap (λ (m : PartitionLru). m.cap) e ∙ h.1)

step-Kept :
    (sha256 : List ℕ → ℕ) (call : Call) (c : NetworkCoordinator)
    → Kept c
    → Kept (step sha256 call c)
unfolding step drop_partition remove set_resolver set_fallback_policy set_blocklist
    set_header_policy
step-Kept sha256 (routes req cancel) c h = (route-Keeps sha256 req cancel).keeps c h
step-Kept sha256 (resolves partition qname qtype mode now later stored_at) c h =
    Kept-same c _ h (resolve-egress c partition qname qtype mode now later stored_at)
step-Kept sha256 (drops key) c h = (remove-LruOk key c.egress h.0, h.1)
step-Kept sha256 (set_resolvers resolver) c h = h
step-Kept sha256 (set_fallbacks policy) c h = h
step-Kept sha256 (set_blocklists blocklist) c h = h
step-Kept sha256 (set_policies policy) c h =
    Kept-same c _ h (store_policy-egress policy.mode policy c)

run-Kept :
    (sha256 : List ℕ → ℕ) (calls : List Call) (c : NetworkCoordinator)
    → Kept c
    → Kept (run sha256 calls c)
unfolding run
run-Kept sha256 [] c h = h
run-Kept sha256 (call ∷ calls) c h =
    run-Kept sha256 calls (step sha256 call c) (step-Kept sha256 call c h)

-- After any calls on a coordinator that `bootstrap` has made, routes that fail half way included, it
-- has egress state for 16 partitions at most, and these are exactly the partitions of the LRU queue,
-- each once.
pub run-LruOk :
    (sha256 : List ℕ → ℕ) (class_ok : Bool) (applied : Outcome NetworkError (Unit {0}))
    (mode : Mode) (c : NetworkCoordinator) (calls : List Call)
    → bootstrap class_ok applied mode ≡ ok c
    → LruOk (run sha256 calls c).egress × (len (run sha256 calls c).egress ≤ 16)
unfolding bootstrap new
run-LruOk sha256 class_ok applied mode c calls e =
    let (_, e1) = guard_ok (not class_ok) _ _ c e in
    let (_, _, e2) = bind_ok applied _ c e1 in
    let start : c.egress ≡ new 16 = ap egress_of (sym e2) in
    let (lru, cap) = run-Kept sha256 calls c (
      subst LruOk (sym start) (new-LruOk 16 (omega arith)),
      ap (λ (l : PartitionLru). l.cap) start,
    ) in
    (lru, omega (arith, lru.same_size, lru.bounded, cap))
  where
    egress_of : Outcome NetworkError NetworkCoordinator → PartitionLru
    egress_of (ok d) = d.egress
    egress_of (err x) = new 16
    egress_of panic = new 16
