-- ===== src/Store/Layout.antt =====
-- src/store/layout.rs: the files of the cache directory. A cache is its sidecars by key and its
-- blobs by digest. A blob's path is `blob_path` of its digest, so what the source returns as a
-- path is that digest here. A sidecar may hold anything, and writing one may fail: where the file
-- system refuses it (a parameter), and where two keys collide, since `a` lies at `a.json` and
-- `a.json/b` below it. The sync of the directory after a write, and the other file operations, do not
-- fail. Locks are held for a whole operation, which is one step here.
use starfield_datastore.Prelude.{
  ℕ, Bool, true, false, ◌&&◌, ◌||◌, Option, none, some, List, [], ◌∷◌, ◌++◌, leb, ◌==◌,
  if◌then◌else◌, length, take, all, any, Bytes, starts_with, codes, eq_bytes, leb_bytes,
}
use starfield_datastore.Error.{Result, ok, err, io}
use starfield_datastore.Key.{ArtifactKey}
use starfield_datastore.Store.Files.{Files, read, write, delete, names, sort_by}

pub data Layer : Type 0 where
  local_disk mirror upstream : Layer

pub record IndexEntry : Type 0 where
  pub digest : Bytes
  pub bytes : ℕ
  pub fetched_at : ℕ
  pub source : Option Bytes
  pub etag : Option Bytes
  pub provider_identity : Option Bytes
  pub layer : Layer

-- `IndexEntry::new`
abbrev pub new_entry : ℕ → Bytes → ℕ → Layer → IndexEntry
new_entry now digest bytes layer = record {
  digest = digest;
  bytes = bytes;
  fetched_at = now;
  source = none;
  etag = none;
  provider_identity = none;
  layer = layer;
}

-- The text of an index file, as serde reads it.
pub data Sidecar : Type 0 where
  entry : IndexEntry → Sidecar
  malformed : Sidecar

pub record Cache : Type 0 where
  pub index : Files Sidecar
  pub blobs : Files Bytes
  -- The keys for which directories below `index/` were made; deletions leave those.
  pub made : List ArtifactKey
  -- Whether the file system refuses the sidecar of a key.
  pub refuses : ArtifactKey → Bool

abbrev pub is_hex : ℕ → Bool
is_hex b = leb b'0' b && leb b b'9' || leb b'a' b && leb b b'f'

unfoldable pub is_digest : Bytes → Bool
is_digest text = length text == 64 && all is_hex text

-- `Layout::blob_path`, below the cache's root
unfoldable pub blob_path : Bytes → Bytes
blob_path digest = codes "blobs/" ++ (take 2 digest ++ (b'/' ∷ digest))

-- What `read_entry` makes of the file that it finds.
unfoldable pub parse_sidecar : Option Sidecar → Result (Option IndexEntry)
parse_sidecar none = ok none
parse_sidecar (some malformed) = err io
parse_sidecar (some (entry e)) = if is_digest e.digest then ok (some e) else err io

-- `Layout::index_path`, below the index directory
unfoldable pub index_path : ArtifactKey → Bytes
index_path key = key ++ codes ".json"

-- The path of the key lies below that of the other one.
unfoldable pub is_below : ArtifactKey → ArtifactKey → Bool
is_below key other = starts_with (index_path key) (index_path other ++ codes "/")

-- At the sidecar's path stands a directory, or above it a file.
unfoldable pub is_blocked : ArtifactKey → Cache → Bool
is_blocked key c =
    any (is_below key) (names c.index)
    || (any (λ other. is_below other key) (names c.index)
        || any (λ other. is_below other key) c.made)

unfoldable pub read_entry : ArtifactKey → Cache → Result (Option IndexEntry)
read_entry key c = if is_blocked key c then err io else parse_sidecar (read key c.index)

unfoldable pub write_entry : ArtifactKey → IndexEntry → Cache → Result (Unit {0}) × Cache
write_entry key e c =
    if is_blocked key c
    then (err io, c)
    else (let c' = record c { made = key ∷ c.made } in
        if c.refuses key
        then (err io, c')
        else (ok tt, record c' { index = write key (entry e) c.index }))

unfoldable pub remove_entry : ArtifactKey → Cache → Cache
remove_entry key c = record c { index = delete key c.index }

-- The keys of the sidecars; other files below `index/` are not part of a cache.
unfoldable pub keys : Cache → List ArtifactKey
keys c = sort_by leb_bytes (names c.index)

-- `path.is_file()` of a blob
unfoldable pub has_blob : Bytes → Cache → Bool
has_blob digest c = elim (read digest c.blobs) [ none ↦ false | some body ↦ true ]

module _ (sha256 : Bytes → Bytes) where
  -- `Layout::publish`: `none` where a blob stands at the address and does not hash to it.
  unfoldable pub publish_blob : Bytes → Bytes → Cache → Option Bytes × Cache
  publish_blob tmp digest c = elim (read digest c.blobs) [
    | some body ↦ (if eq_bytes (sha256 body) digest then some digest else none, c)
    | none ↦ (some digest, record c { blobs = write digest tmp c.blobs })
  ]

-- The files under `blobs/` that are named by a digest, with their lengths.
unfoldable pub sizes_of : Files Bytes → List (Bytes × ℕ)
sizes_of [] = []
sizes_of ((name, body) ∷ m) =
    let rest = sizes_of m in if is_digest name then (name, length body) ∷ rest else rest

unfoldable pub list_blobs : Cache → List (Bytes × ℕ)
list_blobs c = sort_by (λ a b. leb_bytes a.0 b.0) (sizes_of c.blobs)

unfoldable pub remove_blob : Bytes → Cache → Cache
remove_blob digest c = record c { blobs = delete digest c.blobs }
