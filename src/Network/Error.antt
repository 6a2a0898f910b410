-- ===== src/Network/Error.antt =====
-- crates/pb-network/src/error.rs: what a request may fail with. The error inside `Ipc` and `Sandbox`
-- is left out.
pub data NetworkError : Type 0 where
  partition_mismatch https_only_downgrade ipc sandbox config invalid_url cancelled : NetworkError
  blocked resolve resolve_nx_domain resolve_protocol resolve_timeout : NetworkError
  resolve_transport resolve_cert_pin resolve_outage resolve_rebinding : NetworkError
  tls tls_ct_failed tls_ech_failed : NetworkError

-- `Clone` for `NetworkError`.
unfoldable pub clone : NetworkError → NetworkError
clone ipc = resolve
clone sandbox = resolve
clone e = e
