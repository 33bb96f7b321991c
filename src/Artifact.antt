-- ===== src/Artifact.antt =====
-- src/artifact.rs: sources, provenance and artifacts.
use starfield_datastore.Prelude.{ℕ, Bool, false, Option, none, List, [], Bytes}
use starfield_datastore.Key.{ArtifactKey}
use starfield_datastore.Check.{ContentCheck, default_binary}

pub record Source : Type 0 where
  pub url : Bytes
  pub trust_redirects : Bool

-- `Source::new`
abbrev pub new_source : Bytes → Source
new_source url = record { url = url; trust_redirects = false }

pub record Provenance : Type 0 where
  pub description : Bytes
  pub license : Bytes
  pub citation : Option Bytes

-- `Freshness` has one value.
pub data Freshness : Type 0 where
  immutable : Freshness

pub record Artifact : Type 0 where
  pub key : ArtifactKey
  pub sources : List Source
  pub check : ContentCheck
  pub freshness : Freshness
  pub provenance : Provenance
  pub expected_bytes : Option ℕ

-- `Artifact::new`
abbrev pub new_artifact : ArtifactKey → List Source → Artifact
new_artifact key sources = record {
  key = key;
  sources = sources;
  check = default_binary;
  freshness = immutable;
  provenance = record { description = []; license = []; citation = none };
  expected_bytes = none;
}
