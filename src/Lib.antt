-- ===== src/Lib.antt =====
-- DevBrowse: the parts of the browser that keep identities apart.
--
-- The program is a Rust workspace (crates/). Modelled are the crates that decide which identity may
-- reach what: crates/pb-config (the configuration and its checks), crates/pb-identity (profiles,
-- renderers and tabs), crates/pb-gpu (the shared adapter), of crates/pb-network the coordinator that
-- every request and every lookup passes, with the blocklist, the headers, the DNS cache, filters and
-- wire format below it, of crates/pb-extensions the allowlist and the controller of extensions, and
-- of crates/pb-ui the history panel. The lifecycle of tabs calls the registry and the scheduler; the
-- GPU queue and the memory budget check the scope tokens that the coordinator issues; the budget
-- takes its cap from the configuration. `route` of the network coordinator calls the partition key,
-- the blocklist, the URL strip and the header scrub; its `resolve` calls the DNS cache and the
-- resolver.
--
-- Parts and files.
--   Prelude: tests on numbers, lists, keys, association lists, and Outcome for what a Rust call comes
--     to (Ok, Err or a panic).
--   Config, Config/Loader: schema.rs and the validate of loader.rs of crates/pb-config/src.
--     Loader/Checked has what the other crates may rely on.
--   Identity/Profile, Registry, Suspension: profile.rs, registry.rs and suspension.rs of
--     crates/pb-identity/src. IdentityProfileBuilder::name and ::mode are with_name and with_mode;
--     load is load_file, on the parsed file, with the loop load_profiles.
--   Identity/Scheduler: scheduler.rs. A method returns the new scheduler or the error.
--   Identity/Lifecycle: lifecycle.rs, over the registry and the scheduler. A method is a function from
--     the state to the state that it leaves and its outcome; the ? operator is the bind of the do
--     blocks. Its children: Linked, Place, Close (tables), Invariant, Spawn, Closing, Suspending (the
--     invariant and each call), Runs (histories), Isolation, Binding, Abort, Pausing (what follows).
--   Gpu/Coordinator, Queue, Budget, Timing: coordinator.rs, queue.rs, memory_budget.rs and timing.rs
--     of crates/pb-gpu/src, each with its laws and histories of calls below it. The queue
--     and the budget refuse tokens by the epoch that the coordinator gave them.
--   Gpu/Recovery: a recovery of the adapter over the coordinator, the queue and the budget.
--   Network/Dns/Cache, Rebinding, Fallback, Wire, SingleFlight: cache.rs, rebinding.rs, fallback.rs,
--     wire.rs and single_flight.rs of crates/pb-network/src/dns. Rebinding/Blocks and BlocksV6
--     have the address blocks; Wire has the writer, Wire/Reader the reader, Walk is about the loop of skip_name, Decode
--     about the reader, RoundTrip about the writer and the reader; SingleFlight/Flights the
--     histories of joins and completions.
--   Network/Blocklist/Rule, RadixTree, UrlStrip, Live: rule.rs, radix_tree.rs, url_strip.rs and
--     blocklist.rs (with events.rs) of crates/pb-network/src/blocklist. Paths has the terminal at a
--     path, Longest the match, Count the number of rules, UrlStrip/Parts the rewriting of a URL.
--   Network/Error, PartitionKey, Headers: error.rs, partition_key.rs and headers.rs of
--     crates/pb-network/src; PartitionKey/Framing and Headers/Scrub have their laws.
--   Network/Coordinator: coordinator.rs of crates/pb-network/src. Its children are its parts: Url (the
--     functions on URLs), Lru (PartitionLru), Route (`route`), and, below these, what is shown of
--     them; Resolve and Runs are about `resolve` and about histories of calls.
--   Extensions/Version, Encoding, Allowlist: allowlist.rs of crates/pb-extensions/src: versions and
--     constraints, hexadecimal and base64 text, manifests and install candidates.
--   Extensions/Controller: controller.rs of crates/pb-extensions/src; Threads has
--     the steps that calls of several threads do under its locks, which is where install takes two.
--     Gates is about each call, Enabled about each step, Lived about histories of steps, Calm about
--     those without an update between the two steps of an install.
--   Extensions/Blocker: blocker.rs of crates/pb-extensions/src.
--   Ui/History: history.rs of crates/pb-ui/src, the update function and which rows the
--     view shows; Focus is about its focused row.
--   Tests: runs at concrete inputs, and the theorems applied to them.
--
-- How the code is read.
--   A HashMap is an association list, whose order stands for the iteration order; lookup, insert
--   and erase meet only at a key, and schedule, which iterates, returns the first match in it. A
--   HashSet is a list without repetition. A Uuid, a TabId, a RendererId, an AllocationId, a
--   CommandBufferId and a PartitionKey are numbers; a string is the list of its code points
--   (profile names) or bytes (host names, URLs, paths). A method under a mutex is one step.
--   Cargo.toml keeps overflow checks on in every profile, with panic = "abort": `+= 1` past the
--   largest u64 is the outcome panic, and wrapping_add and saturating_add are written out.
--   registry_mut is used through insert and remove.
--   An Instant of the DNS cache is a number of nanoseconds, and each reading of the clock is an
--   argument; the sum of an Instant and a Duration does not overflow. The queries, record lists and
--   errors of the cache are types of which it uses only the equality of queries.
--   SHA-256, serde_json, the signature verifier and the resolver are arguments; a reading of the
--   cancellation flag is an argument for each place where the code reads it. An async method is the
--   sequence of its steps. A slice or an index out of range is the outcome panic.
--   The sums of indexes into a DNS message and of lengths of labels do not overflow a usize. One
--   type, VersionParseError, stands for the errors of versions and of version constraints.
--
-- Bounds. Every loop but one is structural recursion on the list or number that it consumes. The loop
--   of skip_name has fuel for 272 rounds: each round but the last either follows a pointer, which
--   16 hops bound, or takes at least one of at most 255 bytes of labels.
--   Identifier counters are bounded by 2 ^ 64 where a theorem says so.
--
-- Not modelled: file and network I/O, TOML, permissions, save and its temporary file, Display and
--   Debug, Uuid::new_v4 (an argument), the constant adapter descriptor, the sandbox and platform
--   slots and the getters of the network coordinator, the blocklist's loader and scheduler, the DoH
--   client, TLS and WebRTC, drawing and the other panels of the user interface, and the other crates,
--   which are glue, operating-system services or cryptography.
pub mod Prelude
pub mod Config
pub mod Identity
pub mod Gpu
pub mod Network
pub mod Extensions
pub mod Ui
pub mod Tests
