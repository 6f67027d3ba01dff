-- ===== src/Filesystem/Laws.antt =====
-- What is relied on of the files, and what `Put` and `Get` then do.
use mathlib.Core.Path.{subst}
use shipinator.Common.{
  ◌≡◌, ◌≢◌, refl, sym, arith, ap, ◌∙◌, String, true, Option, none, some, ◌==◌, string_eq,
}
use shipinator.Errors.{Error, Result, ok, err}
use shipinator.Models.{Uuid, Time}
use shipinator.Effects.{Platform}
use shipinator.Filesystem.{Ref, Store, Files, put, get, after, metadata_made}

pub record FileLaws (f : Files) : Type 0 where
  -- The text of the file at a path, in each state, and why a file would not open now.
  pub file : f.State → String → Option String
  pub fault : f.State → Option Error
  -- The text that a reader gives.
  pub bytes : f.Reader → String
  pub mkdir_all-file :
      (dir : String) (k : f.State) (path : String) → file (f.mkdir_all dir k).0 path ≡ file k path
  pub create-file :
      (path : String) (k : f.State)
      → (f.create path k).1 ≡ none
      → file (f.create path k).0 path ≡ some ""
  pub create-other :
      (path : String) (k : f.State) (other : String)
      → other ≢ path
      → file (f.create path k).0 other ≡ file k other
  pub copy-file :
      (path : String) (r : f.Reader) (k : f.State)
      → file k path ≡ some ""
      → (f.copy path r k).1 ≡ none
      → file (f.copy path r k).0 path ≡ some (bytes r)
  pub copy-other :
      (path : String) (r : f.Reader) (k : f.State) (other : String)
      → other ≢ path
      → file (f.copy path r k).0 other ≡ file k other
  pub write_file-other :
      (path text : String) (k : f.State) (other : String)
      → other ≢ path
      → file (f.write_file path text k).0 other ≡ file k other
  pub open_file-file :
      (path text : String) (k : f.State)
      → fault k ≡ none
      → file k path ≡ some text
      → f.open_file path k ≡ ok text

abbrev ref_or : Ref → Result Ref → Ref
ref_or r (ok ref) = ref
ref_or r (err e) = r

same_text : (t : String) → (t == t) ≡ true
same_text t = ground arith

module _ (p : Platform) {f : Files} (laws : FileLaws f) (s : Store) where
  open laws use {
    file, fault, bytes, mkdir_all-file, create-file, create-other, copy-file, copy-other,
    write_file-other, open_file-file,
  }

  -- A predicate of the states that a call and what follows it leave.
  after-holds :
      (P : f.State → Type 0) (x : f.State × Option Error) (format : String)
      (next : f.State → f.State × Result Ref)
      → P x.0
      → ((k : f.State) → P k → P (next k).0)
      → P (after p f s x format next).0
  after-holds P (k, none) format next h g = g k h
  after-holds P (k, some e) format next h g = h

  after-ok :
      (x : f.State × Option Error) (format : String) (next : f.State → f.State × Result Ref)
      {k : f.State} {ref : Ref}
      → after p f s x format next ≡ (k, ok ref)
      → (x.1 ≡ none) × (next x.0 ≡ (k, ok ref))
  after-ok (x, none) format next h = (refl, h)
  after-ok (x, some e) format next h = cc

  -- The directory of an artifact.
  abbrev pub dir_of : Uuid → String
  dir_of id = p.path_join s.base_path (p.uuid_string id)

  metadata-keeps :
      (dir : String) (text : Result String) (k : f.State) (other : String)
      → other ≢ p.path_join dir "metadata.json"
      → file (metadata_made p f s dir text k).0 other ≡ file k other
  unfolding metadata_made
  metadata-keeps dir (err e) k other b = refl
  metadata-keeps dir (ok text) k other b =
      after-holds (λ x. file x other ≡ file k other)
        (f.write_file (p.path_join dir "metadata.json") text k) _ _
        (write_file-other _ text k other b) (λ x h. h)

  metadata-ref :
      (dir : String) (text : Result String) (k k' : f.State) (ref : Ref)
      → metadata_made p f s dir text k ≡ (k', ok ref)
      → ref ≡ record { backend = s.backend; locator = dir }
  unfolding metadata_made
  metadata-ref dir (err e) k k' ref h = cc
  metadata-ref dir (ok text) k k' ref h = sym (
      ap (λ x. ref_or ref x.1)
        (after-ok (f.write_file (p.path_join dir "metadata.json") text k) _ _ h).1)

  get-opened :
      (dir text : String) (k : f.State)
      → f.open_file (p.path_join dir "payload") k ≡ ok text
      → get p f s (record { backend = s.backend; locator = dir }) k ≡ ok text
  unfolding get
  get-opened dir text k h = rw (same_text s.backend) (rw h)

  -- Whether it succeeds or fails, a `Put` changes no file but the payload and the metadata of its
  -- artifact.
  pub put-keeps :
      (now : Time) (id : Uuid) (content : f.Reader) (k : f.State) (other : String)
      → other ≢ p.path_join (dir_of id) "payload"
      → other ≢ p.path_join (dir_of id) "metadata.json"
      → file (put p f s now id content k).0 other ≡ file k other
  unfolding put
  put-keeps now id content k other a b =
      after-holds (λ x. file x other ≡ file k other) (f.mkdir_all (dir_of id) k) _ _
        (mkdir_all-file (dir_of id) k other)
        λ x h.
          after-holds (λ x. file x other ≡ file k other)
            (f.create (p.path_join (dir_of id) "payload") x) _ _ (create-other _ x other a ∙ h)
            λ x h.
              after-holds (λ x. file x other ≡ file k other)
                (f.copy (p.path_join (dir_of id) "payload") content x) _ _
                (copy-other _ content x other a ∙ h)
                λ x h. metadata-keeps (dir_of id) _ x other b ∙ h

  -- Where the two files of an artifact have different paths and files can be opened, `Get` of the
  -- reference that a `Put` returned gives the text that the `Put` was given.
  pub put-get :
      (now : Time) (id : Uuid) (content : f.Reader) (k k' : f.State) (ref : Ref)
      → p.path_join (dir_of id) "payload" ≢ p.path_join (dir_of id) "metadata.json"
      → put p f s now id content k ≡ (k', ok ref)
      → fault k' ≡ none
      → get p f s ref k' ≡ ok (bytes content)
  unfolding put
  put-get now id content k k' ref differ h none_fault =
      let payload = p.path_join (dir_of id) "payload" in
      let (m, h1) = after-ok (f.mkdir_all (dir_of id) k) _ _ h in
      let k1 = (f.mkdir_all (dir_of id) k).0 in
      let (c, h2) = after-ok (f.create payload k1) _ _ h1 in
      let k2 = (f.create payload k1).0 in
      let (w, h3) = after-ok (f.copy payload content k2) _ _ h2 in
      let k3 = (f.copy payload content k2).0 in
      let there : file k' payload ≡ some (bytes content) =
        sym (ap (λ x. file x.0 payload) h3)
        ∙ metadata-keeps (dir_of id) _ k3 payload differ
        ∙ copy-file payload content k2 (create-file payload k1 c) w in
      subst (λ r. get p f s r k' ≡ ok (bytes content))
        (sym (metadata-ref (dir_of id) _ k3 k' ref h3))
        (get-opened (dir_of id) (bytes content) k'
          (open_file-file payload (bytes content) k' none_fault there))
