-- ===== src/Lib.antt =====
-- starfield-datastore: a content-addressed cache of scientific data files, filled from a mirror or
-- from upstream archives, and a service that fills the mirror.
--
-- How the parts interact. A manifest (src/manifest.rs) lists artifacts (src/artifact.rs), each with a
-- key, sources and a content check (src/check.rs). The store (src/store/) resolves an artifact
-- through the local disk, the mirror and the sources; every transfer goes through a receiver that
-- hashes, counts and checks it before it is published. The fetcher (src/fetch.rs) follows redirects
-- and picks credentials. The service (src/server/cache.rs) admits cold fills under a policy
-- (src/config.rs) and collects garbage once they have drained. It keeps its copies in an S3 bucket
-- (src/s3.rs), and a client reads them through the HTTP mirror (src/mirror/http.rs). A configuration
-- (src/config.rs, src/credential_config.rs) with the environment makes the settings of a datastore
-- and the credential providers that its fetcher asks.
--
-- Files and what they model.
--   Prelude, Error: shared helpers; src/error.rs as data, with a result type and its bind.
--   Key, Key/Shape, Key/Path: `ArtifactKey` of src/artifact.rs; texts are lists of bytes.
--   Artifact: the records of src/artifact.rs.
--   Check, Check/Html, Check/Prefix, Check/Pins: src/check.rs (`check_prefix`; `check_body` is
--     `check_file` and `check_reader`), and `pinned_sha256s` and `without_sha256` of src/store/mod.rs.
--   Store/Files, Store/Layout: src/store/layout.rs; a cache is a record of sidecars by key and blobs
--     by digest, and the path of a blob is its digest. It also keeps for which keys directories were
--     made, since a key's sidecar may lie where another key needs a directory, and which sidecars the
--     file system refuses to write.
--   Store/Receiver: `Receiver` and `Datastore::receive` of src/store/mod.rs. A producer is the list
--     of buffers that the sink is given, its ending, and its error if the sink refuses one.
--   Store/Local: `validate`, `local_hit`, `publish`; Store/Resolve: `get`, `get_with_outcome`,
--     `get_limited`, `get_with_budget`, `fetch_from_mirror`, `fetch_from_upstream`, `import`.
--     Store/Resolve/Collide: keys whose sidecars cannot both stand.
--   Store/View: the store as a map from keys to digests. Store/Spec: the runs of calls on it.
--   Store/Maintain: `entry`, `peek`, `contains`, `remove`, `verify`, `gc` and the byte counts.
--   Policy, Server/Coordinator: `ServiceCachePolicy` of src/config.rs and src/server/cache.rs;
--     Server/Admission is the system of open fills, with its steps.
--   Fetch: `Fetcher::request` of src/fetch.rs, with the list of the requests that it sends.
--   Manifest: `get`, `merge` and `pin_sha256` of src/manifest.rs; Manifest/Toml: `parse_check` and
--     `encode_check`; Manifest/Document: `from_toml_str` and `to_toml_string` apart from the toml
--     crate; Manifest/Utf8: which bytes are a text. Manifest/RoundTrip and Manifest/Reload: proofs.
--   Server/Service, Server/Handler: src/server.rs, `Service` and the handler `artifact`. The world of a
--     request is the cache and the list of the uploads made. Server/Objects, Server/Redirects,
--     Server/Uploads: proofs on what is redirected to and uploaded.
--   S3: the metadata, `head`, `fetch` and the other reads of src/s3.rs; S3/Metadata: what an
--     upload says of its object; S3/Upload: `put`, `replace` and
--     `multipart`; S3/Decimal: numbers as texts. The AWS SDK answers each request from the list of
--     the requests sent before. S3/Guarded, S3/Parts, S3/Accepted, S3/Existing, S3/Outcome:
--     proofs.
--   Mirror: src/mirror/http.rs; Fetch/Sanitize: `sanitize` of src/fetch.rs.
--   Credential, Credential/OnePassword: the providers of src/credential.rs.
--   CredentialConfig, CredentialConfig/Source: src/credential_config.rs, with proofs in
--     CredentialConfig/RoundTrip, CredentialConfig/Secrets, CredentialConfig/Claims and CredentialConfig/Hosts.
--   Config, Config/Texts: the settings of src/config.rs and their sources; Config/Services: the checks of a
--     configuration and the builders; Config/Build: `DatastoreBuilder::build` of src/store/mod.rs and
--     `open` of src/mirror/mod.rs. Config/Precedence, Config/Selection: proofs.
--   Tests: runs of the model and the theorems at concrete inputs.
--
-- Parameters. SHA-256 is a function on bytes, and no theorem assumes that it has no collisions.
-- The store takes `sanitize` as a parameter. Whether the file system refuses a sidecar is an input too. The clock, URL parsing, what the toml and serde crates read,
-- HTTP and S3 responses, environment variables, the runs of `op`, the free space of the file system and
-- the outcome of a lock attempt are inputs.
--
-- Numbers. Lengths and counts are natural numbers; `u64` sums that the code checks for overflow are
-- compared with 2 ^ 64 (`checked_add` in Policy, `checked_sum` in Store/Maintain). The redirect loop
-- has the ten hops of the code as its bound. The multipart loop has the bytes of the file as its fuel:
-- every part takes at least one, and its theorem states that the whole file is sent.
--
-- Not modelled: the locks of src/store/layout.rs (an operation is one step), failures of the cache
-- directory other than those of reading and writing a sidecar, fsync, progress reports, timeouts, the texts of
-- TOML files (the toml crate reads and prints them), the HTTP router, the runtime of the S3 client and
-- the command line, which prints what the library returns.
pub mod Prelude
pub mod Error
pub mod Key
pub mod Check
pub mod Artifact
pub mod Store
pub mod Policy
pub mod S3
pub mod Server
pub mod Fetch
pub mod Manifest
pub mod Tests
pub mod Credential
pub mod CredentialConfig
pub mod Config
pub mod Mirror
