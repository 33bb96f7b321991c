-- ===== src/Store/Maintain/Verified.antt =====
-- What a report of `verify` without failures says.
use starfield_datastore.Prelude.{
  ◌≡◌, refl, ap, ◌∙◌, inl, inr, true, false≢true, Option, none, some, List, [], ◌∷◌, arith,
  Bool-cases, Option-cases, length, any, Bytes, eq_bytes, eq_bytes_iff, leb_bytes,
}
use mathlib.Core.Path.{subst}
use starfield_datastore.Error.{ok, >>=-eq-ok}
use starfield_datastore.Key.{ArtifactKey}
use starfield_datastore.Store.Files.{read, names, any-sort_by, read→listed}
use starfield_datastore.Store.Layout.{IndexEntry, entry, Cache, parse_sidecar, read_entry, keys}
use starfield_datastore.Store.Maintain.{
  Entries, consider, read_entries, entries, Fault, VerifyFailure, blob_fault, report, faults,
  verify,
}

module _ (sha256 : Bytes → Bytes) where
  report-empty :
      (k : ArtifactKey) (e : IndexEntry) (f : Option Fault) (rest : List VerifyFailure)
      → report sha256 k e f rest ≡ []
      → (f ≡ none) × (rest ≡ [])
  report-empty k e none rest h = (refl, h)
  report-empty k e (some f) rest h = absurd (ground arith)

  -- The blob of an entry is there, with the entry's digest and length.
  pub record IsIntact (e : IndexEntry) (c : Cache) : Type 0 where
    pub body : Bytes
    pub there : read e.digest c.blobs ≡ some body
    pub hash : sha256 body ≡ e.digest
    pub size : length body ≡ e.bytes

  blob_fault-IsIntact :
      (e : IndexEntry) (c : Cache)
      → blob_fault sha256 e (read e.digest c.blobs) ≡ none
      → IsIntact e c
  unfolding blob_fault
  blob_fault-IsIntact e c h = elim (Option-cases (read e.digest c.blobs)) [
    | inl n ↦ absurd (ground arith)
    | inr (b, n) ↦
        let same : eq_bytes (sha256 b) e.digest ≡ true = ground arith in
        record {
          body = b;
          there = n;
          hash = (eq_bytes_iff (sha256 b) e.digest).0 same;
          size = ground arith;
        }
  ]

  consider-faults :
      (c : Cache) (k : ArtifactKey) (x : Option IndexEntry) (rest : Entries)
      → faults sha256 (consider k x rest) c ≡ []
      → ((e : IndexEntry) → x ≡ some e → IsIntact e c) × (faults sha256 rest c ≡ [])
  unfolding faults
  consider-faults c k none rest h = (λ e p. absurd (ground arith), h)
  consider-faults c k (some e) rest h =
      let (fine, later) =
        report-empty k e (blob_fault sha256 e (read e.digest c.blobs)) (faults sha256 rest c) h in
      (
        λ e' p.
            let same : e ≡ e' = ground arith in
            subst (λ (y : IndexEntry). IsIntact y c) same (blob_fault-IsIntact e c fine),
        later,
      )

  read_entries-IsIntact :
      (ks : List ArtifactKey) (c : Cache) (es : Entries) (k : ArtifactKey) (e : IndexEntry)
      → read_entries ks c ≡ ok es
      → faults sha256 es c ≡ []
      → any (λ j. eq_bytes j k) ks ≡ true
      → read k c.index ≡ some (entry e)
      → IsIntact e c
  unfolding read_entries
  read_entries-IsIntact [] c es k e h f m r = absurd (false≢true m)
  read_entries-IsIntact (j ∷ ks) c es k e h f m r =
      let (found, hf, h1) = >>=-eq-ok (read_entry j c) _ h in
      let (rest, hr, h2) = >>=-eq-ok (read_entries ks c) _ h1 in
      let listed : consider j found rest ≡ es = ground arith in
      let (here, later) = consider-faults c j found rest (ap (λ x. faults sha256 x c) listed ∙ f) in
      elim (Bool-cases (eq_bytes j k)) [
        | inl y ↦
            let this = subst (λ x. read_entry x c ≡ ok found) ((eq_bytes_iff j k).0 y) hf in
            here e (found_entry found this)
        | inr y ↦ read_entries-IsIntact ks c rest k e hr later (rw y at m) r
      ]
    where
      found_entry : (x : Option IndexEntry) → read_entry k c ≡ ok x → x ≡ some e
      found_entry x p = unfold read_entry parse_sidecar in ground arith

  -- When `verify` succeeds and reports nothing, the blob of every sidecar is there, hashes to the
  -- digest that the sidecar records and has the length that it records.
  pub verify-IsIntact :
      (c : Cache) (k : ArtifactKey) (e : IndexEntry)
      → verify sha256 c ≡ ok []
      → read k c.index ≡ some (entry e)
      → IsIntact e c
  unfolding verify entries keys
  verify-IsIntact c k e h r =
      let (es, he, hf) = >>=-eq-ok (entries c) _ h in
      read_entries-IsIntact _ c es k e he (ground arith)
        (any-sort_by leb_bytes (λ j. eq_bytes j k) (names c.index)
          ∙ read→listed k c.index (entry e) r)
        r
