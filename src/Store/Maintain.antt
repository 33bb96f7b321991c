-- ===== src/Store/Maintain.antt =====
-- src/store/mod.rs: lookups that never fetch, removal, verification and garbage collection.
-- Sums of file lengths stay below 2 ^ 64, except in `blob_bytes`, which checks.
pub mod Referenced
pub mod Integrity
pub mod Verified
pub mod Evict
use starfield_datastore.Prelude.{
  ℕ, ◌+◌, ◌-◌, ◌^◌, Bool, true, false, not, Option, none, some, List, [], ◌∷◌, ltb, leb, ◌==◌,
  if◌then◌else◌, length, any, Bytes, eq_bytes,
}
use starfield_datastore.Error.{◌>>=◌, Result, ok, err, config}
use starfield_datastore.Key.{ArtifactKey}
use starfield_datastore.Store.Files.{Files, read, sort_by}
use starfield_datastore.Store.Layout.{
  IndexEntry, Cache, read_entry, remove_entry, keys, has_blob, list_blobs, remove_blob,
}

-- `Datastore::entry`: a sidecar error reads as absence.
abbrev if_present : Result (Option IndexEntry) → Cache → Option IndexEntry
if_present (err e) c = none
if_present (ok none) c = none
if_present (ok (some e)) c = if has_blob e.digest c then some e else none

unfoldable pub entry_of : ArtifactKey → Cache → Option IndexEntry
entry_of key c = if_present (read_entry key c) c

abbrev digest_of : Option IndexEntry → Option Bytes
digest_of none = none
digest_of (some e) = some e.digest

-- `Datastore::peek`
unfoldable pub peek : ArtifactKey → Cache → Option Bytes
peek key c = digest_of (entry_of key c)

-- `Datastore::contains`
unfoldable pub contains_key : ArtifactKey → Cache → Bool
contains_key key c = elim (peek key c) [ none ↦ false | some d ↦ true ]

abbrev Entries : Type 0
Entries = List (ArtifactKey × IndexEntry)

abbrev pub consider : ArtifactKey → Option IndexEntry → Entries → Entries
consider key none rest = rest
consider key (some e) rest = (key, e) ∷ rest

-- The loop of `entries`: stops at the first sidecar that cannot be read.
unfoldable pub read_entries : List ArtifactKey → Cache → Result Entries
read_entries [] c = ok []
read_entries (key ∷ ks) c = do
  found ← read_entry key c
  rest ← read_entries ks c
  ok (consider key found rest)

-- `Datastore::entries`
unfoldable pub entries : Cache → Result Entries
entries c = read_entries (keys c) c

abbrev pub refers : Bytes → Entries → Bool
refers digest es = any (λ x. eq_bytes x.1.digest digest) es

-- `Datastore::digest_referenced`
unfoldable pub digest_referenced : Bytes → Cache → Result Bool
digest_referenced digest c = do es ← entries c; ok (refers digest es)

-- Delete an entry, and its blob with the last reference to it. On an error the entry is gone.
unfoldable pub unlink : ArtifactKey → IndexEntry → Cache → Result Bool × Cache
unlink key e c =
    let c' = remove_entry key c in
    elim (digest_referenced e.digest c') [
      | err f ↦ (err f, c')
      | ok true ↦ (ok false, c')
      | ok false ↦ (ok true, remove_blob e.digest c')
    ]

abbrev done : Result Bool × Cache → Result (Unit {0}) × Cache
done (err e, c) = (err e, c)
done (ok b, c) = (ok tt, c)

-- `Datastore::remove`
unfoldable pub remove : ArtifactKey → Cache → Result (Unit {0}) × Cache
remove key c = elim (read_entry key c) [
  | err e ↦ (err e, c)
  | ok none ↦ (ok tt, c)
  | ok (some e) ↦ done (unlink key e c)
]

-- `Datastore::total_bytes`
abbrev pub sum_sizes : List (Bytes × ℕ) → ℕ
sum_sizes [] = 0
sum_sizes ((d, n) ∷ l) = n + sum_sizes l

unfoldable pub total_bytes : Cache → ℕ
total_bytes c = sum_sizes (list_blobs c)

abbrev pub u64 : ℕ
u64 = 2 ^ 64

unfoldable pub checked_sum : ℕ → List (Bytes × ℕ) → Result ℕ
checked_sum total [] = ok total
checked_sum total ((d, n) ∷ l) =
    if ltb (total + n) u64
    then checked_sum (total + n) l
    else err (config "cache byte count overflow")

-- `Datastore::blob_bytes`
unfoldable pub blob_bytes : Cache → Result ℕ
blob_bytes c = checked_sum 0 (list_blobs c)

-- Why `verify` reports a key.
pub data Fault : Type 0 where
  missing : Fault
  mismatch : Bytes → Fault
  wrong_size : Bytes → ℕ → Fault

pub record VerifyFailure : Type 0 where
  pub key : ArtifactKey
  pub expected : Bytes
  pub fault : Fault

module _ (sha256 : Bytes → Bytes) where
  -- What is wrong with the blob of one entry.
  unfoldable pub blob_fault : IndexEntry → Option Bytes → Option Fault
  blob_fault e none = some missing
  blob_fault e (some body) =
      if not (eq_bytes (sha256 body) e.digest)
      then some (mismatch (sha256 body))
      else if not (length body == e.bytes)
      then some (wrong_size (sha256 body) (length body))
      else none

  abbrev report : ArtifactKey → IndexEntry → Option Fault → List VerifyFailure → List VerifyFailure
  report key e none rest = rest
  report key e (some f) rest = record { key = key; expected = e.digest; fault = f } ∷ rest

  unfoldable pub faults : Entries → Cache → List VerifyFailure
  faults [] c = []
  faults ((key, e) ∷ es) c = report key e (blob_fault e (read e.digest c.blobs)) (faults es c)

  -- `Datastore::verify`
  unfoldable pub verify : Cache → Result (List VerifyFailure)
  verify c = do es ← entries c; ok (faults es c)

-- The first block of `gc`: blobs that no entry refers to go, the others are measured.
unfoldable pub sweep : Entries → List (Bytes × ℕ) → Cache → List (Bytes × ℕ) × Cache
sweep es [] c = ([], c)
sweep es ((d, n) ∷ rest) c =
    let (sizes, c') = sweep es rest (if refers d es then c else remove_blob d c) in
    (if refers d es then (d, n) ∷ sizes else sizes, c')

abbrev pub size_of : Option ℕ → ℕ
size_of none = 0
size_of (some n) = n

-- One round of the loop of `gc`: the key's entry is read again, and goes unless it has changed.
-- The result is the bytes freed, and whether the key was removed.
unfoldable pub evict : Files ℕ → ArtifactKey × IndexEntry → Cache → Result (ℕ × Bool) × Cache
evict sizes (key, snapshot) c = elim (read_entry key c) [
  | err f ↦ (err f, c)
  | ok none ↦ (ok (0, false), c)
  | ok (some e) ↦
      if not (eq_bytes e.digest snapshot.digest)
      then (ok (0, false), c)
      else (let (r, c') = unlink key e c in
          elim r [
            | err f ↦ (err f, c')
            | ok true ↦ (ok (size_of (read e.digest sizes), true), c')
            | ok false ↦ (ok (0, true), c')
          ])
]

abbrev pub note_removed : Bool → ArtifactKey → List ArtifactKey → List ArtifactKey
note_removed true key ks = key ∷ ks
note_removed false key ks = ks

abbrev add_key :
    Bool → ArtifactKey → Result (List ArtifactKey) × Cache → Result (List ArtifactKey) × Cache
add_key b key (err e, c) = (err e, c)
add_key b key (ok ks, c) = (ok (note_removed b key ks), c)

-- The rest of a round: fail, or go on with what was freed.
unfoldable pub after_evict :
    ArtifactKey
    → ℕ
    → (ℕ → Cache → Result (List ArtifactKey) × Cache)
    → Result (ℕ × Bool) × Cache
    → Result (List ArtifactKey) × Cache
after_evict key total next (err f, c) = (err f, c)
after_evict key total next (ok (freed, removed), c) = add_key removed key (next (total - freed) c)

-- The loop of `gc`, oldest entry first, while the total is above the limit.
unfoldable pub evict_while : ℕ → Files ℕ → Entries → ℕ → Cache → Result (List ArtifactKey) × Cache
evict_while limit sizes [] total c = (ok [], c)
evict_while limit sizes (x ∷ rest) total c = elim (leb total limit) [
  | true ↦ (ok [], c)
  | false ↦ after_evict x.0 total (evict_while limit sizes rest) (evict sizes x c)
]

abbrev pub oldest_first : Entries → Entries
oldest_first es = sort_by (λ a b. leb a.1.fetched_at b.1.fetched_at) es

-- `Datastore::gc`
unfoldable pub gc : ℕ → Cache → Result (List ArtifactKey) × Cache
gc limit c = elim (entries c) [
  | err f ↦ (err f, c)
  | ok es ↦
      let (sizes, c') = sweep es (list_blobs c) c in
      evict_while limit sizes (oldest_first es) (sum_sizes sizes) c'
]
