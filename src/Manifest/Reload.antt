-- ===== src/Manifest/Reload.antt =====
-- A manifest that is saved and loaded again.
use starfield_datastore.Prelude.{
  ◌≡◌, refl, ap, inl, inr, Bool, true, false, not, ◌&&◌, Option, none, some, List, [], ◌∷◌, map,
  arith, Bool-cases, &&_true, if_false, all, Bytes, eq_bytes,
}
use starfield_datastore.Error.{ok, ◌>>=◌, >>=-eq-ok}
use starfield_datastore.Key.{ArtifactKey, bad_key}
use starfield_datastore.Key
use starfield_datastore.Check.{
  ContentCheck, sha256_is, magic, min_bytes, not_html, custom, all_of, no_check, nil, cons, Verdict,
  pass, fail, and_then, check_body,
}
use starfield_datastore.Artifact.{Artifact, Source, Freshness, immutable}
use starfield_datastore.Fetch.{Url}
use starfield_datastore.Manifest.{Manifest, split_pin}
use starfield_datastore.Manifest.Toml.{encode_check}
use starfield_datastore.Manifest.RoundTrip.{fits, parse_check-encode_check, returned}
use starfield_datastore.Manifest.Document.{
  SourceEntry, Entry, source_of, entry_of, seen_before, parse_entry_check, add_pin, check_pin,
  validate_url, load_sources, load_entry, load_entries, load_document, save_sources, save_entry,
  save_entries, save_document, entry_with,
}

-- A pin and the rest of a check, joined the way the loader joins them.
abbrev pub rejoin : Option Bytes → ContentCheck → ContentCheck
rejoin none check = check
rejoin (some digest) check = all_of (cons (sha256_is digest) (cons check nil))

abbrev pub reloaded : Artifact → Artifact
reloaded a = record a { check = rejoin (split_pin a.check).0 (split_pin a.check).1 }

-- A key that `ArtifactKey::new` makes, and a check that the loader reads.
abbrev pub is_storable : Artifact → Bool
is_storable a = not (bad_key a.key) && fits (split_pin a.check).1 0

and_then_pass : (v : Verdict) → and_then v pass ≡ v
and_then_pass pass = refl
and_then_pass (fail f) = refl

module _ (sha256 : Bytes → Bytes) where
  -- The verdict on a body stays as it was.
  pub reloaded_verdict :
      (c : ContentCheck) (body : Bytes)
      → check_body sha256 (rejoin (split_pin c).0 (split_pin c).1) body ≡ check_body sha256 c body
  unfolding split_pin check_body
  reloaded_verdict (sha256_is d) body = and_then_pass _
  reloaded_verdict (magic prefixes trim) body = refl
  reloaded_verdict (min_bytes n) body = refl
  reloaded_verdict not_html body = refl
  reloaded_verdict (custom f) body = refl
  reloaded_verdict no_check body = refl
  reloaded_verdict (all_of nil) body = refl
  reloaded_verdict (all_of (cons (magic prefixes trim) cs)) body = refl
  reloaded_verdict (all_of (cons (min_bytes n) cs)) body = refl
  reloaded_verdict (all_of (cons not_html cs)) body = refl
  reloaded_verdict (all_of (cons (custom f) cs)) body = refl
  reloaded_verdict (all_of (cons no_check cs)) body = refl
  reloaded_verdict (all_of (cons (all_of ds) cs)) body = refl
  reloaded_verdict (all_of (cons (sha256_is d) nil)) body = refl
  reloaded_verdict (all_of (cons (sha256_is d) (cons c nil))) body = refl
  reloaded_verdict (all_of (cons (sha256_is d) (cons c (cons e cs)))) body =
      ap (and_then (check_body sha256 (sha256_is d) body)) (and_then_pass _)

abbrev source_with : Bytes → Bool → Source
source_with url trust = record { url = url; trust_redirects = trust }

source_of-entry_of_with :
    (url : Bytes) (trust : Bool)
    → source_of (entry_of (source_with url trust)) ≡ source_with url trust
unfolding source_of entry_of
source_of-entry_of_with url true = refl
source_of-entry_of_with url false = refl

source_of-entry_of : (s : Source) → source_of (entry_of s) ≡ s
source_of-entry_of s = source_of-entry_of_with s.url s.trust_redirects

immutable_only : (f : Freshness) → immutable ≡ f
immutable_only immutable = refl

add_pin-rejoin :
    (pin : Option Bytes) (c : ContentCheck) (u : Unit {0})
    → check_pin pin ≡ ok u
    → add_pin pin c ≡ ok (rejoin pin c)
unfolding check_pin add_pin
add_pin-rejoin none c u h = refl
add_pin-rejoin (some digest) c u h = rw h refl

module _ (parse : Bytes → Option Url) where
  load_sources-save_sources :
      (ss : List Source) (xs : List SourceEntry)
      → save_sources parse ss ≡ ok xs
      → load_sources parse xs ≡ ok ss
  unfolding save_sources load_sources
  load_sources-save_sources [] xs h = returned (λ x. load_sources parse x ≡ ok []) [] xs h refl
  load_sources-save_sources (s ∷ ss) xs h =
      let (u, hu, hrest) = >>=-eq-ok (validate_url parse s.url) _ h in
      let (more, hm, hmade) = >>=-eq-ok (save_sources parse ss) _ hrest in
      returned (λ x. load_sources parse x ≡ ok (s ∷ ss)) (entry_of s ∷ more) xs hmade
        (rw (source_of-entry_of s, hu, load_sources-save_sources ss more hm) refl)

  load_entry-save_entry :
      (a : Artifact) (e : Entry)
      → save_entry parse a ≡ ok e
      → is_storable a ≡ true
      → (Key.new e.key ≡ ok a.key) × (load_entry parse e a.key ≡ ok (reloaded a))
  unfolding save_entry load_entry parse_entry_check Key.new eq_bytes
  load_entry-save_entry a e h hs =
      let (pin, check) = split_pin a.check in
      let (hk, hf) = &&_true (not (bad_key a.key)) (fits check 0) hs in
      let (u, hu, h1) = >>=-eq-ok (check_pin pin) _ h in
      let (xs, hx, h2) = >>=-eq-ok (save_sources parse a.sources) _ h1 in
      let (v, hv, made) = >>=-eq-ok (encode_check check) _ h2 in
      returned (λ x. (Key.new x.key ≡ ok a.key) × (load_entry parse x a.key ≡ ok (reloaded a)))
        (entry_with a xs pin v) e made
        (
          if_false (λ x. x ≡ ok a.key) (bad_key a.key) _ (ok a.key) (ground arith) refl,
          rw
              (
                load_sources-save_sources a.sources xs hx,
                parse_check-encode_check check 0 v hv hf,
                add_pin-rejoin pin check u hu,
              )
              (ap (λ f. ok (record a { check = rejoin pin check; freshness = f }))
                (immutable_only a.freshness)),
        )

  load_entries-save_entries :
      (m : Manifest) (seen : List ArtifactKey) (es : List Entry)
      → save_entries parse m seen ≡ ok es
      → all is_storable m ≡ true
      → load_entries parse es seen ≡ ok (map reloaded m)
  unfolding save_entries load_entries
  load_entries-save_entries [] seen es h hs =
      returned (λ x. load_entries parse x seen ≡ ok []) [] es h refl
  load_entries-save_entries (a ∷ m) seen es h hs = elim (Bool-cases (seen_before a.key seen)) [
    | inl y ↦ absurd (ground arith)
    | inr y ↦
        let (ha, hm) = &&_true (is_storable a) (all is_storable m) hs in
        let run = save_entry parse a >>= λ e.
        save_entries parse m (a.key ∷ seen) >>= λ more. ok (e ∷ more) in
        let hrun : run ≡ ok es = ground arith in
        let (e, he, hrest) = >>=-eq-ok (save_entry parse a) _ hrun in
        let (more, hmore, made) = >>=-eq-ok (save_entries parse m (a.key ∷ seen)) _ hrest in
        let (hk, hl) = load_entry-save_entry a e he ha in
        let ih = load_entries-save_entries m (a.key ∷ seen) more hmore hm in
        returned (λ x. load_entries parse x seen ≡ ok (map reloaded (a ∷ m))) (e ∷ more) es made
          (rw (hk, y, hl, ih) refl)
  ]

module _ (sha256 : Bytes → Bytes) (parse : Bytes → Option Url) where
  -- A manifest that `to_toml_string` writes is read back by `from_toml_str`, when its keys are valid,
  -- its magic prefixes are bytes and no check is nested deeper than the reader goes: every artifact
  -- returns, in the order it had, with its sources, sizes and provenance, and its check has the same
  -- verdict on every body. A pin that stood first in a check returns as the first check.
  pub load_document-save_document :
      (m : Manifest) (es : List Entry)
      → save_document parse m ≡ ok es
      → all is_storable m ≡ true
      → (load_document parse es ≡ ok (map reloaded m))
        × ((c : ContentCheck) (body : Bytes)
            → check_body sha256 (rejoin (split_pin c).0 (split_pin c).1) body
              ≡ check_body sha256 c body)
  load_document-save_document m es h hs =
      (load_entries-save_entries parse m [] es h hs, reloaded_verdict sha256)
