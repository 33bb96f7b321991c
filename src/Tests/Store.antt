-- ===== src/Tests/Store.antt =====
-- The store at concrete inputs: a mirror that sends a body in two pieces, and small caches. The
-- hash of a body stands for SHA-256.
use starfield_datastore.Prelude.{
  List, ℕ, ◌+◌, ◌≤◌, ◌≡◌, ◌≢◌, refl, ap, Bool, true, false, none, some, [], ◌∷◌, arith, length,
  replicate, Bytes, codes, eq_bytes, starts_with,
}
use mathlib.Core.Path.{subst}
use starfield_datastore.Error.{
  Error, Attempts, attempt, all_sources_failed, mirror, ok, err, io, offline_miss,
}
use starfield_datastore.Check.{
  all_of, cons, nil, min_bytes, pass, check_prefix, check_body, without_sha256, pinned_sha256s,
  sha256_is,
}
use starfield_datastore.Artifact.{Artifact, new_artifact, new_source}
use starfield_datastore.Store.Files.{read, write, delete, names, sort_by, insert_sorted}
use starfield_datastore.Store.Layout.{
  local_disk, Layer, IndexEntry, new_entry, entry, Cache, is_digest, parse_sidecar, is_blocked,
  is_below, index_path, read_entry, write_entry, remove_entry, keys, publish_blob, sizes_of,
  list_blobs, remove_blob,
}
use starfield_datastore.Store.Receiver.{
  new_receiver, charge, collect, append_bytes, after_charge, write_chunk, Producer, proceed, drive,
  finish_prefix, served, conclude, receive,
}
use starfield_datastore.Store.Receiver.Budget.{receive-budget}
use starfield_datastore.Store.Receiver.Complete.{receive_complete, concat, whole}
use starfield_datastore.Store.Local.{validate, publish, look_local}
use starfield_datastore.Store.Resolve.{
  import_file, Mirror, Datastore, ResolveOutcome, store_received, fetch_from_mirror, after_mirror,
  resolve_remote, after_local, get_with_budget, get, get_limited, resolve_upstream, try_sources,
  after_source, fetch_from_upstream,
}
use starfield_datastore.Store.Resolve.Holds.{Holds, Grows}
use starfield_datastore.Store.Resolve.Collide.{get_collided}
use starfield_datastore.Store.Resolve.Layers.{get_offline}
use starfield_datastore.Store.Resolve.Sound.{get-Holds, get-err}
use starfield_datastore.Store.Resolve.Integrity.{IsWellFormed, get-IsWellFormed}
use starfield_datastore.Store.Maintain.{
  verify, faults, blob_fault, entries, read_entries, unlink, digest_referenced, sweep, evict,
  after_evict, evict_while, gc,
}
use starfield_datastore.Store.Maintain.Integrity.{gc-IsWellFormed}
use starfield_datastore.Store.Maintain.Verified.{IsIntact, verify-IsIntact}
use starfield_datastore.Store.View.{view, holds, forgets, after_all}
use starfield_datastore.Store.Spec.{Runs, idle, resolves, fails, collects, Runs-view}
use starfield_datastore.Store.Resolve.Import.{IsWritable, import_file-get}
use starfield_datastore.Store.Maintain.Evict.{Without, gc-Without}

abbrev toy_hash : Bytes → Bytes
toy_hash body = replicate 64 b'a'

abbrev keep : Bytes → Bytes
keep url = url

abbrev digest : Bytes
digest = replicate 64 b'a'

abbrev finals : Artifact
finals = record (new_artifact (codes "f") (new_source (codes "https://a/f") ∷ [])) {
  check = all_of (cons (sha256_is (replicate 64 b'a')) (cons (min_bytes 4) nil));
}

abbrev pieces : Producer Bool
pieces = record { chunks = codes "ab" ∷ codes "cd" ∷ []; ending = ok true; on_write_error = io }

abbrev near : Mirror
near = record { object = λ key. pieces; location = λ key. codes "mirror/f" }

abbrev store : Datastore
store = record {
  mirror = some near;
  request = λ source. record { chunks = []; ending = ok none; on_write_error = io };
  allow_upstream = true;
  offline = false;
}

abbrev empty : Cache
empty = record { index = []; blobs = []; made = []; refuses = λ key. false }

abbrev finals_entry : IndexEntry
finals_entry = record (new_entry 7 digest 4 Layer.mirror) { source = some (codes "mirror/f") }

abbrev filled : Cache
filled = record {
  index = (codes "f", entry finals_entry) ∷ [];
  blobs = (digest, codes "abcd") ∷ [];
  made = codes "f" ∷ [];
  refuses = λ key. false;
}

-- The directories stay when the sidecar goes.
abbrev emptied : Cache
emptied = record empty { made = codes "f" ∷ [] }

abbrev outcome : ResolveOutcome
outcome = record { layer = Layer.mirror; bytes = 4; source_index = none }

mirror-fills : get toy_hash keep 7 store finals empty ≡ (ok (digest, outcome), filled)
unfolding get get_with_budget after_local look_local read_entry parse_sidecar read resolve_remote
    fetch_from_mirror after_mirror store_received receive drive proceed write_chunk charge
    after_charge collect append_bytes served conclude finish_prefix check_prefix publish validate
    check_body without_sha256 pinned_sha256s publish_blob write_entry write eq_bytes is_blocked
    is_below index_path names starts_with
mirror-fills = refl

limited-fills : get_limited toy_hash keep 7 store finals 4 empty ≡ (ok (digest, outcome), filled)
unfolding get_limited get_with_budget after_local look_local read_entry parse_sidecar read
    resolve_remote fetch_from_mirror after_mirror store_received receive drive proceed write_chunk
    charge after_charge collect append_bytes served conclude finish_prefix check_prefix publish
    validate check_body without_sha256 pinned_sha256s publish_blob write_entry write eq_bytes
    is_blocked is_below index_path names starts_with
limited-fills = refl

get-Holds_example : Holds toy_hash finals digest filled
get-Holds_example = get-Holds toy_hash keep 7 store finals empty filled digest outcome mirror-fills

abbrev away : Datastore
away = record store { offline = true }

offline-misses : get toy_hash keep 7 away finals empty ≡ (err (offline_miss (codes "f")), empty)
unfolding get get_with_budget after_local look_local read_entry parse_sidecar read resolve_remote
    is_blocked is_below index_path names starts_with eq_bytes
offline-misses = refl

-- A disk that takes the blob of the mirror's body and not its sidecar; then the source has no file.
abbrev full : Cache
full = record empty { refuses = λ key. true }

abbrev orphaned : Cache
orphaned = record full { blobs = (digest, codes "abcd") ∷ []; made = codes "f" ∷ [] }

abbrev no_source : Error
no_source =
    all_sources_failed (codes "f")
      (attempt (codes "https://a/f") (mirror "HTTP 404 Not Found") Attempts.nil)

sidecar-refused : get toy_hash keep 7 store finals full ≡ (err no_source, orphaned)
unfolding get get_with_budget after_local look_local read_entry parse_sidecar read resolve_remote
    fetch_from_mirror after_mirror store_received receive drive proceed write_chunk charge
    after_charge collect append_bytes served conclude finish_prefix check_prefix publish validate
    check_body without_sha256 pinned_sha256s publish_blob write_entry write eq_bytes is_blocked
    is_below index_path names starts_with resolve_upstream try_sources after_source
    fetch_from_upstream
sidecar-refused = refl

get-err_example : Grows toy_hash full orphaned
get-err_example = get-err toy_hash keep 7 store finals full orphaned no_source sidecar-refused

empty-IsWellFormed : IsWellFormed toy_hash empty
unfolding read
empty-IsWellFormed = record {
  addressed = λ d b h. ground arith;
  readable = λ k h. ground arith;
  resolved = λ k e h. absurd (ground arith);
}

get-IsWellFormed_example : IsWellFormed toy_hash (get toy_hash keep 7 store finals empty).1
get-IsWellFormed_example = get-IsWellFormed toy_hash keep 7 store finals empty empty-IsWellFormed

filled-IsWellFormed : IsWellFormed toy_hash filled
filled-IsWellFormed =
    subst (IsWellFormed toy_hash) (ap (λ x. x.1) mirror-fills) get-IsWellFormed_example_base
  where
    get-IsWellFormed_example_base : IsWellFormed toy_hash (get toy_hash keep 7 store finals empty).1
    get-IsWellFormed_example_base =
        get-IsWellFormed toy_hash keep 7 store finals empty empty-IsWellFormed

receive_complete_example :
    (receive toy_hash (λ found. found) finals none pieces).0
    ≡ ok (some (whole toy_hash (concat (codes "ab" ∷ codes "cd" ∷ []))))
receive_complete_example =
    receive_complete toy_hash (λ found. found) finals pieces true refl refl body-passes
  where
    body-passes : check_body toy_hash finals.check (concat pieces.chunks) ≡ pass
    body-passes = unfold check_body eq_bytes in refl

receive-budget_example :
    (left : ℕ) × ((receive toy_hash (λ found. found) finals (some 3) pieces).1 ≡ some left)
    × (left + length (drive finals.check pieces.chunks (new_receiver (some 3))).1.written ≤ 3)
receive-budget_example = receive-budget toy_hash (λ found. found) finals 3 pieces

gc-IsWellFormed_example : IsWellFormed toy_hash (gc 3 filled).1
gc-IsWellFormed_example = gc-IsWellFormed toy_hash 3 filled filled-IsWellFormed

found-entry : read_entry (codes "f") filled ≡ ok (some finals_entry)
unfolding read_entry parse_sidecar read eq_bytes is_digest is_blocked is_below index_path names
    starts_with
found-entry = refl

gc-evicts : gc 3 filled ≡ (ok (codes "f" ∷ []), emptied)
unfolding gc entries keys names sort_by insert_sorted read_entries read_entry parse_sidecar read
    eq_bytes is_digest list_blobs sizes_of sweep evict_while after_evict evict unlink
    digest_referenced remove_entry remove_blob delete is_blocked is_below index_path starts_with
gc-evicts = refl

gc-Without_example : Without (codes "f" ∷ []) filled emptied
gc-Without_example = gc-Without 3 filled emptied (codes "f" ∷ []) gc-evicts

filled-verified : verify toy_hash filled ≡ ok []
unfolding verify entries keys names sort_by insert_sorted read_entries read_entry parse_sidecar read
    eq_bytes is_digest faults blob_fault is_blocked is_below index_path starts_with
filled-verified = refl

verify-IsIntact_example : IsIntact toy_hash finals_entry filled
verify-IsIntact_example =
    verify-IsIntact toy_hash filled (codes "f") finals_entry filled-verified finals-sidecar
  where
    finals-sidecar : read (codes "f") filled.index ≡ some (entry finals_entry)
    finals-sidecar = unfold read eq_bytes in refl

abbrev halves : List Bytes
halves = codes "ab" ∷ codes "cd" ∷ []

import_file-get_example :
    ((import_file toy_hash keep 3 finals halves empty).0 ≡ ok digest)
    × (get toy_hash keep 7 away finals (import_file toy_hash keep 3 finals halves empty).1 ≡ (
      ok (digest, record { layer = local_disk; bytes = 4; source_index = none }),
      (import_file toy_hash keep 3 finals halves empty).1,
    ))
import_file-get_example =
    import_file-get toy_hash keep away finals halves 3 7 empty well_formed refl passes room absent
  where
    well_formed : is_digest digest ≡ true
    well_formed = unfold is_digest in refl

    passes : check_body toy_hash finals.check (codes "abcd") ≡ pass
    passes = unfold check_body eq_bytes in refl

    room : IsWritable (codes "f") empty
    room = record { free = unfold is_blocked names in refl; granted = refl }

    absent : read digest empty.blobs ≡ none
    absent = unfold read in refl

abbrev below : Artifact
below = record finals { key = codes "f.json/x" }

-- The file `f` is in the cache.
get_collided_example :
    (get toy_hash keep 7 store below filled ≡ (err io, filled))
    × ((d : Bytes) → (import_file toy_hash keep 7 below halves filled).0 ≢ ok d)
get_collided_example =
    get_collided toy_hash keep 7 store below halves filled (codes "f") (codes "x")
      (entry finals_entry) sidecar refl
  where
    sidecar : read (codes "f") filled.index ≡ some (entry finals_entry)
    sidecar = unfold read eq_bytes in refl

abbrev offline_store : Datastore
offline_store = record store { offline = true }

-- No mirror, and the file is in the cache.
get_offline_example :
    (get toy_hash keep 7 offline_store finals filled
      ≡ get toy_hash keep 7 (record offline_store { mirror = none }) finals filled)
    × ((get toy_hash keep 7 offline_store finals filled).1 ≡ filled)
get_offline_example =
    get_offline toy_hash keep 7 offline_store (record offline_store { mirror = none }) finals filled
      refl refl

-- An offline datastore misses the file, another one fetches it, and `gc` evicts it.
filled_and_evicted :
    Runs toy_hash keep empty (holds (codes "f") digest ∷ (forgets (codes "f" ∷ []) ∷ [])) emptied
filled_and_evicted = fails 7 away finals (offline_miss (codes "f")) offline-misses (
    resolves 7 store finals digest outcome mirror-fills
      (collects 3 (codes "f" ∷ []) gc-evicts idle))

Runs-view_example :
    IsWellFormed toy_hash emptied
    × ((k : Bytes)
        → view emptied k
          ≡ after_all (holds (codes "f") digest ∷ (forgets (codes "f" ∷ []) ∷ [])) (view empty) k)
Runs-view_example =
    Runs-view toy_hash keep empty emptied
      (holds (codes "f") digest ∷ (forgets (codes "f" ∷ []) ∷ [])) filled_and_evicted
      empty-IsWellFormed
