-- ===== src/Store/View.antt =====
-- What the caches of src/store/mod.rs show: a map from keys to digests, and what calls do to it.
use starfield_datastore.Prelude.{
  ◌≡◌, refl, sym, ap, ◌∙◌, ◌⊎◌, ◌&&◌, false≢true, inl, inr, Bool, true, false, Option, none, some,
  List, [], ◌∷◌, arith, if◌then◌else◌, Bool-cases, any, Bytes, eq_bytes, eq_bytes_iff,
}
use starfield_datastore.Error.{Error, Result, ok, err}
use starfield_datastore.Key.{ArtifactKey}
use starfield_datastore.Store.Files.{read}
use starfield_datastore.Store.Layout.{
  IndexEntry, Sidecar, entry, malformed, Cache, read_entry, parse_sidecar,
}
use starfield_datastore.Store.Maintain.Evict.{Without}

-- The abstract store.
abbrev pub View : Type 0
View = ArtifactKey → Option Bytes

abbrev pub sidecar_digest : Option Sidecar → Option Bytes
sidecar_digest none = none
sidecar_digest (some malformed) = none
sidecar_digest (some (entry e)) = some e.digest

abbrev pub view : Cache → View
view c k = sidecar_digest (read k c.index)

-- What a caller sees happen.
pub data Event : Type 0 where
  holds : ArtifactKey → Bytes → Event
  forgets : List ArtifactKey → Event
  loses : (ArtifactKey → Bool) → Event

abbrev pub after : Event → View → View
after (holds key digest) v k = if eq_bytes key k then some digest else v k
after (loses lost) v k = if lost k then none else v k
after (forgets keys) v k = if any (λ j. eq_bytes j k) keys then none else v k

abbrev pub after_all : List Event → View → View
after_all [] v = v
after_all (e ∷ es) v = after_all es (after e v)

abbrev is_gone : Option Bytes → Bool
is_gone none = true
is_gone (some d) = false

-- The keys among some that a cache has nothing for.
abbrev pub missing : (ArtifactKey → Bool) → Cache → ArtifactKey → Bool
missing among c k = among k && is_gone (view c k)

pub digest_if :
    (b : Bool) (e : IndexEntry) (d : Bytes) (s : Option Sidecar)
    → d ≡ e.digest
    → sidecar_digest (if b then some (entry e) else s) ≡ (if b then some d else sidecar_digest s)
digest_if true e d s h = ap some (sym h)
digest_if false e d s h = refl

without_if :
    (b : Bool) (s : Option Sidecar)
    → sidecar_digest (if b then none else s) ≡ (if b then none else sidecar_digest s)
without_if true s = refl
without_if false s = refl

pub parse_sidecar-some :
    (s : Option Sidecar) (e : IndexEntry) → parse_sidecar s ≡ ok (some e) → s ≡ some (entry e)
unfolding parse_sidecar
parse_sidecar-some none e h = absurd (ground arith)
parse_sidecar-some (some malformed) e h = absurd (ground arith)
parse_sidecar-some (some (entry x)) e h = ground arith

parse_sidecar-none : (s : Option Sidecar) → parse_sidecar s ≡ ok none → s ≡ none
unfolding parse_sidecar
parse_sidecar-none none h = refl
parse_sidecar-none (some malformed) h = absurd (ground arith)
parse_sidecar-none (some (entry x)) h = absurd (ground arith)

pub read_entry-none : (c : Cache) (k : ArtifactKey) → read_entry k c ≡ ok none → view c k ≡ none
unfolding read_entry
read_entry-none c k h = ap sidecar_digest (parse_sidecar-none (read k c.index) (ground arith))

pub absent_view :
    (c : Cache) (key : ArtifactKey)
    → view c key ≡ none
    → (k : ArtifactKey) → view c k ≡ after (forgets (key ∷ [])) (view c) k
absent_view c key h k = elim (Bool-cases (eq_bytes key k)) [
  | inl y ↦ rw y (ap (view c) (sym ((eq_bytes_iff key k).0 y)) ∙ h)
  | inr y ↦ rw y refl
]

if_gone :
    (b : Bool) (v w : Option Bytes)
    → (v ≡ w) ⊎ ((b ≡ true) × (v ≡ none))
    → v ≡ (if b && is_gone v then none else w)
if_gone false v w (inl same) = same
if_gone false v w (inr (h, n)) = absurd (false≢true h)
if_gone true none w (inl same) = refl
if_gone true (some d) w (inl same) = same
if_gone true none w (inr (h, n)) = refl
if_gone true (some d) w (inr (h, n)) = absurd (ground arith)

-- Where some keys keep their sidecars or have none, and the others keep theirs, those that have none
-- are lost.
pub view-missing :
    (among : ArtifactKey → Bool) (c c' : Cache)
    → ((j : ArtifactKey)
        → (read j c'.index ≡ read j c.index) ⊎ ((among j ≡ true) × (read j c'.index ≡ none)))
    → (k : ArtifactKey) → view c' k ≡ after (loses (missing among c')) (view c) k
view-missing among c c' h k = if_gone (among k) (view c' k) (view c k) (elim (h k) [
  | inl same ↦ inl (ap sidecar_digest same)
  | inr (b, n) ↦ inr (b, ap sidecar_digest n)
])

pub failed_run :
    {A : Type 0} {e : Error} {a : A} {c c' : Cache}
    → ◌≡◌ {A = Result A × Cache} (err e, c) (ok a, c')
    → ⊥
failed_run h = ground arith

pub Without-view :
    (c c' : Cache) (gone : List ArtifactKey)
    → Without gone c c'
    → (k : ArtifactKey) → view c' k ≡ after (forgets gone) (view c) k
Without-view c c' gone h k =
    ap sidecar_digest (h k) ∙ without_if (any (λ j. eq_bytes j k) gone) (read k c.index)
