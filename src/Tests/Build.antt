-- ===== src/Tests/Build.antt =====
-- Datastores that are built from settings, at concrete inputs. The hash of a body stands for SHA-256.
use starfield_datastore.Prelude.{
  ◌≡◌, refl, true, false, Option, none, some, [], ◌∷◌, arith, replicate, Bytes, codes,
}
use starfield_datastore.Error.{ok, err, io}
use starfield_datastore.Key.{trim_start_slash, trim_slashes, trim_end_slash}
use starfield_datastore.Check.Html.{trim_start, is_space, is_space2, is_space3}
use starfield_datastore.Credential.{Variable, absent}
use starfield_datastore.Config.{DatastoreBuilder, default_builder, s3_mirror}
use starfield_datastore.Config.Build.{Built, open_mirror, open_option, build, build-get}
use starfield_datastore.Fetch.{Network}
use starfield_datastore.S3.{Client, failure, has_whitespace, with_client}
use starfield_datastore.Artifact.{Artifact, Source, new_artifact, new_source}
use starfield_datastore.Store.Receiver.{Producer}
use starfield_datastore.Store.Resolve.{Download, get}

abbrev nothing_set : Bytes → Variable
nothing_set name = absent

abbrev toy_hash : Bytes → Bytes
toy_hash body = replicate 64 b'a'

-- A network that reaches nothing.
abbrev dark : Network
dark = record {
  parse = λ raw. none;
  as_str = λ url. [];
  join = λ url to. none;
  send = λ left s. err io;
}

abbrev no_bucket : Client
no_bucket = record {
  on_head = λ h. failure none;
  on_get = λ h. failure (some 404);
  on_put = λ h. failure none;
  on_create = λ h. failure none;
  on_part = λ h. failure none;
  on_complete = λ h. failure none;
}

abbrev plain : DatastoreBuilder
plain = record default_builder {
  cache_root = some (codes "/data");
  mirror = some (s3_mirror (codes "b") [] (codes "eu") false);
}

built : Built
built = elim (build dark (λ raw. none) 7 (λ region. no_bucket) nothing_set plain) [
  | ok d ↦ d
  | err e ↦ record {
    root = [];
    store = record {
      mirror = none;
      request = λ source. record { chunks = []; ending = err io; on_write_error = io };
      allow_upstream = true;
      offline = true;
    };
    max_bytes = none;
  }
]

plain-built : build dark (λ raw. none) 7 (λ region. no_bucket) nothing_set plain ≡ ok built
unfolding built build open_option open_mirror with_client trim_slashes trim_start_slash
    trim_end_slash has_whitespace trim_start is_space is_space2 is_space3
plain-built = refl

-- A source that would send the text.
abbrev generous : Source → Producer (Option Download)
generous source = record {
  chunks = codes "abc" ∷ [];
  ending = ok (some (record { etag = none; provider_identity = none }));
  on_write_error = io;
}

abbrev finals : Artifact
finals = new_artifact (codes "f") (new_source (codes "https://a.test/f") ∷ [])

build-get_example :
    get toy_hash
      (λ raw. raw)
      7
      built.store
      finals
      (record { index = []; blobs = []; made = []; refuses = λ key. false })
    ≡ get toy_hash
        (λ raw. raw)
        7
        (record built.store { request = generous })
        finals
        (record { index = []; blobs = []; made = []; refuses = λ key. false })
build-get_example =
    build-get dark (λ raw. none) 7 (λ region. no_bucket) toy_hash (λ raw. raw) nothing_set plain
      built generous finals (record { index = []; blobs = []; made = []; refuses = λ key. false })
      plain-built (λ h. ground arith)
