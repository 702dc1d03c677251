-- ===== src/PolicyStore/Reading.antt =====
-- pkg/policystore/store.go: what `Load` reads is there, and stays there while generations are added.
use openvaultdb_go.Base.{
  ℕ, String, List, [], ◌∷◌, true, false, Option, ok, ◌≡◌, sym, ap, inl, inr, Option-cases, lookup,
  >>=-eq-ok, >>=-ok, subst, ok-injective, ok≢err, require->>-eq-ok,
}
use openvaultdb_go.PolicyStore.Disk.{
  Owner, Generation, Disk, Document, Access, Snapshot, Faults, Point, started, read_active,
  read_manifest, compile_policies, before_document, read_document, pass, not_compiled, valid_digest,
  size,
}
use openvaultdb_go.PolicyStore.Load.{
  max_generation_bytes, max_document_bytes, is_entry, file_of, manifest_of, check_manifest,
  read_entry, read_file, strict_json, load_documents, load_generation, load, or_err,
}
use openvaultdb_go.PolicyStore.Activate.{Environment}
use openvaultdb_go.PolicyStore.Effects.{IsAtomic}

-- Nothing interrupts.
abbrev pub calm : Faults
calm p = false

module _ (A : Access) (owner : Owner) where
  open A use {Doc, Policy, encode_pointer, decode_pointer}

  read_file-calm :
      (f : Faults) (p : Point) (limit : ℕ) (content : Option String) (text : String)
      → read_file f p limit content ≡ ok text
      → read_file calm p limit content ≡ ok text
  unfolding read_file
  read_file-calm f p limit content text h = (>>=-eq-ok (pass f p) _ h).2

  -- What a call reads, a call that nothing interrupts reads.
  read_entry-calm :
      (f : Faults) (g : Option Generation) (d : Document) (seen : List String) (total : ℕ)
      (body : String)
      → read_entry A owner f g d seen total ≡ ok body
      → read_entry A owner calm g d seen total ≡ ok body
  unfolding read_entry
  read_entry-calm f g d seen total body h =
      let (_, _, h1) = >>=-eq-ok (pass f (before_document d.id)) _ h in
      let (v, h2) = require->>-eq-ok (is_entry d seen) _ _ h1 in
      let (t, c, h3) =
        >>=-eq-ok (read_file f (read_document d.file) max_document_bytes (file_of g d.file)) _ h2 in
      rw (v, read_file-calm f _ _ _ t c, read_entry) h3

  load_documents-calm :
      (f : Faults) (g : Option Generation) (ds : List Document) (seen : List String) (total : ℕ)
      (bodies : List String)
      → load_documents A owner f g ds seen total ≡ ok bodies
      → load_documents A owner calm g ds seen total ≡ ok bodies
  unfolding load_documents
  load_documents-calm f g [] seen total bodies h = h
  load_documents-calm f g (d ∷ ds) seen total bodies h =
      let (body, a, h1) = >>=-eq-ok (read_entry A owner f g d seen total) _ h in
      let (rest, b, h2) = >>=-eq-ok (load_documents A owner f g ds _ _) _ h1 in
      >>=-ok (read_entry A owner calm g d seen total) _ (read_entry-calm f g d seen total body a)
        (>>=-ok (load_documents A owner calm g ds _ _) _ (load_documents-calm f g ds _ _ rest b) h2)

  pub load_generation-calm :
      (f : Faults) (disk : Disk) (revision : String) (s : Snapshot Policy)
      → load_generation A owner f disk revision ≡ ok s
      → (valid_digest revision ≡ true)
        × (s.revision ≡ revision)
        × (load_generation A owner calm disk revision ≡ ok s)
  unfolding load_generation
  load_generation-calm f disk revision s h =
      let g = lookup revision disk.generations in
      let (v, h1) = require->>-eq-ok (valid_digest revision) _ _ h in
      let (text, t, h2) =
        >>=-eq-ok (read_file f read_manifest max_generation_bytes (manifest_of g)) _ h1 in
      let (m, c, h3) = >>=-eq-ok (check_manifest A owner revision text) _ h2 in
      let (bodies, b, h4) =
        >>=-eq-ok (load_documents A owner f g m.documents [] (size text)) _ h3 in
      let (_, _, h5) = >>=-eq-ok (pass f compile_policies) _ h4 in
      let (policies, _, h6) = >>=-eq-ok (or_err not_compiled (A.load_policies owner bodies)) _ h5 in
      (
        v,
        sym (ap (λ s. s.revision) (ok-injective h6)),
        rw
            (
              v,
              read_file-calm f _ _ _ text t,
              c,
              load_documents-calm f g _ _ _ bodies b,
              load_generation,
            )
            h5,
      )

  pub load-calm :
      (f : Faults) (disk : Disk) (s : Snapshot Policy)
      → load A owner f disk ≡ ok s
      → load A owner calm disk ≡ ok s
  unfolding load
  load-calm f disk s h =
      let (_, _, h1) = >>=-eq-ok (pass f started) _ h in
      let (text, t, h2) = >>=-eq-ok (read_file f read_active 4096 disk.active) _ h1 in
      let (revision, c, h3) = >>=-eq-ok (strict_json encode_pointer decode_pointer text) _ h2 in
      rw (read_file-calm f _ _ _ text t, c, load) (load_generation-calm f disk revision s h3).2

  -- A generation that is kept is read as before.
  pub load_generation-kept :
      (env : Environment) (disk after : Disk) (revision : String) (s : Snapshot Policy)
      → IsAtomic A owner env disk after
      → load_generation A owner calm disk revision ≡ ok s
      → load_generation A owner calm after revision ≡ ok s
  unfolding load_generation manifest_of read_file
  load_generation-kept env disk after revision s k h =
      elim (Option-cases (lookup revision disk.generations)) [
        | inr (g, there) ↦
            rw (k.kept revision g there, load_generation) (rw (there, load_generation) at h)
        | inl missing ↦ absurd (
            ok≢err (
              sym
                (require->>-eq-ok (valid_digest revision) _ _
                  (rw (missing, load_generation) at h)).1))
      ]

  pub load-selected :
      (f : Faults) (disk : Disk) (s : Snapshot Policy)
      → load A owner f disk ≡ ok s
      → load_generation A owner calm disk s.revision ≡ ok s
  unfolding load
  load-selected f disk s h =
      let (_, _, h1) = >>=-eq-ok (pass f started) _ h in
      let (text, t, h2) = >>=-eq-ok (read_file f read_active 4096 disk.active) _ h1 in
      let (revision, c, h3) = >>=-eq-ok (strict_json encode_pointer decode_pointer text) _ h2 in
      let (_, same, l) = load_generation-calm f disk revision s h3 in
      subst (λ r. load_generation A owner calm disk r ≡ ok s) (sym same) l
