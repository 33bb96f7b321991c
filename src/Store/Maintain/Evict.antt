-- ===== src/Store/Maintain/Evict.antt =====
-- What `gc` and `remove` take from the index: the keys that they report, and no other.
use starfield_datastore.Prelude.{
  ℕ, ◌-◌, ◌≡◌, refl, sym, ◌∙◌, ◌⊎◌, inl, inr, Bool, true, false, not, none, some, List, [], ◌∷◌,
  arith, leb, if◌then◌else◌, Bool-cases, any, Bytes, eq_bytes,
}
use mathlib.Core.Path.{subst}
use starfield_datastore.Error.{Error, Result, ok, err, Result-cases}
use starfield_datastore.Key.{ArtifactKey}
use starfield_datastore.Store.Files.{Files, read, read-delete}
use starfield_datastore.Store.Layout.{
  IndexEntry, Cache, read_entry, remove_entry, list_blobs, remove_blob,
}
use starfield_datastore.Store.Maintain.{
  Entries, entries, refers, digest_referenced, unlink, done, remove, sweep, evict, after_evict,
  note_removed, add_key, evict_while, gc,
}

-- An unlinked key has no sidecar, and the others keep theirs.
pub unlink-index :
    (k j : ArtifactKey) (e : IndexEntry) (c : Cache)
    → read j (unlink k e c).1.index ≡ (if eq_bytes k j then none else read j c.index)
unfolding unlink remove_entry remove_blob
unlink-index k j e c = elim (Result-cases (digest_referenced e.digest (remove_entry k c))) [
  | inl (f, h) ↦ rw (h, unlink) (read-delete k j c.index)
  | inr (true, h) ↦ rw (h, unlink) (read-delete k j c.index)
  | inr (false, h) ↦ rw (h, unlink) (read-delete k j c.index)
]

-- The sidecars after the keys of a list went.
abbrev pub Without : List ArtifactKey → Cache → Cache → Type 0
Without gone c c' =
    (j : ArtifactKey)
    → read j c'.index ≡ (if any (λ k. eq_bytes k j) gone then none else read j c.index)

-- Every key keeps its sidecar or has none.
abbrev pub Thins : Cache → Cache → Type 0
Thins c c' = (j : ArtifactKey) → (read j c'.index ≡ read j c.index) ⊎ (read j c'.index ≡ none)

Without-Thins : (gone : List ArtifactKey) (c c' : Cache) → Without gone c c' → Thins c c'
Without-Thins gone c c' h j = elim (Bool-cases (any (λ k. eq_bytes k j) gone)) [
  | inl y ↦ inr (h j ∙ (rw y refl))
  | inr y ↦ inl (h j ∙ (rw y refl))
]

Thins-trans : (c c1 c2 : Cache) → Thins c c1 → Thins c1 c2 → Thins c c2
Thins-trans c c1 c2 h1 h2 j = elim (h2 j) [
  | inr n ↦ inr n
  | inl s ↦ elim (h1 j) [ inl t ↦ inl (s ∙ t) | inr n ↦ inr (s ∙ n) ]
]

abbrev EvictsOnly : ArtifactKey → Cache → Result (ℕ × Bool) × Cache → Type 0
EvictsOnly k c (err f, c') = Thins c c'
EvictsOnly k c (ok (freed, b), c') = Without (note_removed b k []) c c'

unlinked : (k : ArtifactKey) (e : IndexEntry) (c : Cache) → Without (k ∷ []) c (unlink k e c).1
unlinked k e c j = unlink-index k j e c ∙ ground arith

evict-EvictsOnly :
    (sizes : Files ℕ) (x : ArtifactKey × IndexEntry) (c : Cache)
    → EvictsOnly x.0 c (evict sizes x c)
unfolding evict
evict-EvictsOnly sizes (k, snapshot) c = elim (Result-cases (read_entry k c)) [
  | inl (f, h) ↦ rw (h, evict) (λ j. inl refl)
  | inr (none, h) ↦ rw (h, evict) (λ j. refl)
  | inr (some e, h) ↦ elim (Bool-cases (not (eq_bytes e.digest snapshot.digest))) [
    | inl y ↦ rw (h, evict, y) (λ j. refl)
    | inr y ↦
        rw (h, evict, y)
          (elim (Result-cases (unlink k e c).0) [
            | inl (f, u) ↦ rw u (Without-Thins (k ∷ []) c (unlink k e c).1 (unlinked k e c))
            | inr (true, u) ↦ rw u (unlinked k e c)
            | inr (false, u) ↦ rw u (unlinked k e c)
          ])
  ]
]

abbrev RemovesOnly : Cache → Result (List ArtifactKey) × Cache → Type 0
RemovesOnly c (err f, c') = Thins c c'
RemovesOnly c (ok gone, c') = Without gone c c'

Without-trans :
    (b : Bool) (k : ArtifactKey) (gone : List ArtifactKey) (c c1 c2 : Cache)
    → Without (note_removed b k []) c c1
    → Without gone c1 c2
    → Without (note_removed b k gone) c c2
Without-trans true k gone c c1 c2 h1 h2 j = ground (arith, h1 j, h2 j)
Without-trans false k gone c c1 c2 h1 h2 j = ground (arith, h1 j, h2 j)

add_key-RemovesOnly :
    (b : Bool) (k : ArtifactKey) (c c1 : Cache) (x : Result (List ArtifactKey) × Cache)
    → Without (note_removed b k []) c c1
    → RemovesOnly c1 x
    → RemovesOnly c (add_key b k x)
add_key-RemovesOnly b k c c1 (err f, c2) h1 h2 =
    Thins-trans c c1 c2 (Without-Thins (note_removed b k []) c c1 h1) h2
add_key-RemovesOnly b k c c1 (ok gone, c2) h1 h2 = Without-trans b k gone c c1 c2 h1 h2

after_evict-RemovesOnly :
    (k : ArtifactKey) (total : ℕ) (next : ℕ → Cache → Result (List ArtifactKey) × Cache) (c : Cache)
    (x : Result (ℕ × Bool) × Cache)
    → EvictsOnly k c x
    → ((n : ℕ) (c1 : Cache) → RemovesOnly c1 (next n c1))
    → RemovesOnly c (after_evict k total next x)
unfolding after_evict
after_evict-RemovesOnly k total next c (err f, c1) h later = h
after_evict-RemovesOnly k total next c (ok (freed, b), c1) h later =
    add_key-RemovesOnly b k c c1 _ h (later (total - freed) c1)

evict_while-RemovesOnly :
    (limit : ℕ) (sizes : Files ℕ) (es : Entries) (total : ℕ) (c : Cache)
    → RemovesOnly c (evict_while limit sizes es total c)
unfolding evict_while
evict_while-RemovesOnly limit sizes [] total c = λ j. refl
evict_while-RemovesOnly limit sizes (x ∷ es) total c = elim (Bool-cases (leb total limit)) [
  | inl y ↦ rw (y, evict_while) (λ j. refl)
  | inr y ↦
      rw (y, evict_while)
        (after_evict-RemovesOnly x.0 total _ c (evict sizes x c) (evict-EvictsOnly sizes x c)
          (λ n c1. evict_while-RemovesOnly limit sizes es n c1))
]

sweep-index :
    (es : Entries) (found : List (Bytes × ℕ)) (c : Cache) → (sweep es found c).1.index ≡ c.index
unfolding sweep
sweep-index es [] c = refl
sweep-index es ((d, n) ∷ found) c = elim (Bool-cases (refers d es)) [
  | inl y ↦ rw y (sweep-index es found c)
  | inr y ↦ rw y (sweep-index es found (remove_blob d c) ∙ unfold remove_blob in refl)
]

RemovesOnly-index :
    (c c' : Cache) (x : Result (List ArtifactKey) × Cache)
    → c'.index ≡ c.index
    → RemovesOnly c' x
    → RemovesOnly c x
RemovesOnly-index c c' (err f, c2) h r =
    λ j. subst (λ i. (read j c2.index ≡ read j i) ⊎ (read j c2.index ≡ none)) h (r j)
RemovesOnly-index c c' (ok gone, c2) h r = λ j.
    subst (λ i. read j c2.index ≡ (if any (λ k. eq_bytes k j) gone then none else read j i)) h (r j)

gc-RemovesOnly : (limit : ℕ) (c : Cache) → RemovesOnly c (gc limit c)
unfolding gc
gc-RemovesOnly limit c = elim (Result-cases (entries c)) [
  | inl (f, h) ↦ rw (h, gc) (λ j. inl refl)
  | inr (es, h) ↦
      rw (h, gc)
        (RemovesOnly-index c (sweep es (list_blobs c) c).1 _ (sweep-index es (list_blobs c) c)
          (evict_while-RemovesOnly limit _ _ _ (sweep es (list_blobs c) c).1))
]

-- A `gc` that succeeds takes from the index the keys that it reports, and no other.
pub gc-Without :
    (limit : ℕ) (c c' : Cache) (gone : List ArtifactKey)
    → gc limit c ≡ (ok gone, c')
    → Without gone c c'
gc-Without limit c c' gone h = subst (RemovesOnly c) h (gc-RemovesOnly limit c)

-- A `gc` that fails takes sidecars and changes none.
pub gc-Thins : (limit : ℕ) (c c' : Cache) (e : Error) → gc limit c ≡ (err e, c') → Thins c c'
gc-Thins limit c c' e h = subst (RemovesOnly c) h (gc-RemovesOnly limit c)

pub done-cache : (x : Result Bool × Cache) → (done x).1 ≡ x.1
done-cache (ok b, c) = refl
done-cache (err e, c) = refl

-- `remove` takes the key's sidecar and no other, where its sidecar could be read.
pub remove-Without :
    (k : ArtifactKey) (e : IndexEntry) (c : Cache)
    → read_entry k c ≡ ok (some e)
    → Without (k ∷ []) c (remove k c).1
unfolding remove
remove-Without k e c h =
    rw (h, remove) (subst (Without (k ∷ []) c) (sym (done-cache (unlink k e c))) (unlinked k e c))

-- A `remove` that fails takes at most its key.
pub remove-Thins :
    (k : ArtifactKey) (c : Cache) (j : ArtifactKey)
    → (read j (remove k c).1.index ≡ read j c.index)
      ⊎ ((eq_bytes k j ≡ true) × (read j (remove k c).1.index ≡ none))
unfolding remove
remove-Thins k c j = elim (Result-cases (read_entry k c)) [
  | inl (f, h) ↦ rw (h, remove) (inl refl)
  | inr (none, h) ↦ rw (h, remove) (inl refl)
  | inr (some e, h) ↦
      rw (h, remove, done-cache (unlink k e c))
        (elim (Bool-cases (eq_bytes k j)) [
          | inl y ↦ inr (y, unlink-index k j e c ∙ (rw y refl))
          | inr y ↦ inl (unlink-index k j e c ∙ (rw y refl))
        ])
]
