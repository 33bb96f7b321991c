-- ===== src/Store/Maintain/Referenced.antt =====
-- A digest that no listed entry refers to is no sidecar's digest.
use starfield_datastore.Prelude.{
  ◌≡◌, sym, ◌∙◌, inl, inr, true, false, false≢true, Option, none, some, List, [], ◌∷◌, arith,
  Bool-cases, ||_false, any, Bytes, eq_bytes, eq_bytes_iff, leb_bytes,
}
use mathlib.Core.Path.{subst}
use starfield_datastore.Error.{ok, >>=-eq-ok}
use starfield_datastore.Key.{ArtifactKey}
use starfield_datastore.Store.Files.{read, names, any-sort_by, read→listed}
use starfield_datastore.Store.Layout.{IndexEntry, entry, Cache, parse_sidecar, read_entry, keys}
use starfield_datastore.Store.Maintain.{
  Entries, consider, read_entries, entries, refers, digest_referenced,
}

read_entry-found :
    (k : ArtifactKey) (c : Cache) (e : IndexEntry) (x : Option IndexEntry)
    → read k c.index ≡ some (entry e)
    → read_entry k c ≡ ok x
    → x ≡ some e
unfolding read_entry parse_sidecar
read_entry-found k c e x r h = ground arith

refers-consider :
    (d : Bytes) (k : ArtifactKey) (x : Option IndexEntry) (rest : Entries)
    → refers d (consider k x rest) ≡ false
    → refers d rest ≡ false
refers-consider d k none rest h = h
refers-consider d k (some e) rest h = (||_false _ _ h).1

refers-head :
    (d : Bytes) (k : ArtifactKey) (x : Option IndexEntry) (e : IndexEntry) (rest : Entries)
    → x ≡ some e
    → refers d (consider k x rest) ≡ false
    → eq_bytes e.digest d ≡ false
refers-head d k none e rest p h = absurd (ground arith)
refers-head d k (some e') e rest p h =
    let same : e' ≡ e = ground arith in
    subst (λ (y : IndexEntry). eq_bytes y.digest d ≡ false) same (||_false _ _ h).0

-- Every key that was read has its entry in the list.
pub read_entries-refers :
    (ks : List ArtifactKey) (c : Cache) (es : Entries) (k : ArtifactKey) (e : IndexEntry)
    (d : Bytes)
    → read_entries ks c ≡ ok es
    → any (λ j. eq_bytes j k) ks ≡ true
    → read k c.index ≡ some (entry e)
    → refers d es ≡ false
    → eq_bytes e.digest d ≡ false
unfolding read_entries
read_entries-refers [] c es k e d h m r f = absurd (false≢true m)
read_entries-refers (j ∷ ks) c es k e d h m r f =
    let (found, hf, h1) = >>=-eq-ok (read_entry j c) _ h in
    let (rest, hr, h2) = >>=-eq-ok (read_entries ks c) _ h1 in
    let listed : consider j found rest ≡ es = ground arith in
    let unreferred = subst (λ x. refers d x ≡ false) (sym listed) f in
    elim (Bool-cases (eq_bytes j k)) [
      | inl y ↦
          let here = subst (λ x. read_entry x c ≡ ok found) ((eq_bytes_iff j k).0 y) hf in
          refers-head d j found e rest (read_entry-found k c e found r here) unreferred
      | inr y ↦
          read_entries-refers ks c rest k e d hr (rw y at m) r
            (refers-consider d j found rest unreferred)
    ]

-- A digest that no entry refers to is no entry's.
pub digest_referenced-false :
    (d : Bytes) (c : Cache) (k : ArtifactKey) (e : IndexEntry)
    → digest_referenced d c ≡ ok false
    → read k c.index ≡ some (entry e)
    → eq_bytes e.digest d ≡ false
unfolding digest_referenced entries keys
digest_referenced-false d c k e h r =
    let (es, he, hf) = >>=-eq-ok (entries c) _ h in
    read_entries-refers _ c es k e d he
      (any-sort_by leb_bytes (λ j. eq_bytes j k) (names c.index)
        ∙ read→listed k c.index (entry e) r)
      r (ground arith)
