-- ===== src/Filesystem.antt =====
-- internal/artifact/artifact.go and internal/artifact/filesystem/store.go. The operating system's
-- files are a parameter.
pub mod Laws
pub mod Memory
use shipinator.Common.{String, Option, none, some, [], ◌∷◌, ◌==◌, string_eq, if◌then◌else◌, not}
use shipinator.Errors.{Error, errorf, wrap, Result, ok, err}
use shipinator.Models.{Uuid, Time}
use shipinator.Effects.{Platform}

abbrev pub backend_nfs : String
backend_nfs = "nfs"

pub record Ref : Type 0 where
  pub backend : String
  pub locator : String

pub record Metadata : Type 0 where
  pub id : String
  pub created_at : Time

pub record Store : Type 0 where
  pub backend : String
  pub base_path : String

abbrev pub new : String → String → Store
new backend base_path = record { backend = backend; base_path = base_path }

-- `os.MkdirAll`, `os.Create`, `io.Copy` from a reader into the file that was created, `os.WriteFile`
-- and `os.Open`, whose file is given by the text that it will read, and `json.Marshal`.
pub record Files : Type 1 where
  pub State : Type 0
  pub Reader : Type 0
  pub mkdir_all : String → State → State × Option Error
  pub create : String → State → State × Option Error
  pub copy : String → Reader → State → State × Option Error
  pub write_file : String → String → State → State × Option Error
  pub open_file : String → State → Result String
  pub marshal : Metadata → Result String

module _ (p : Platform) (f : Files) (s : Store) where
  open f use {State, Reader, mkdir_all, create, copy, write_file, open_file, marshal}

  -- `if err != nil { return wrap(err) }`, on the state that a call leaves.
  abbrev pub after :
      State × Option Error → String → (State → State × Result Ref) → State × Result Ref
  after (k, none) format next = next k
  after (k, some e) format next = (k, err (wrap format [] e))

  -- `Put` from the text of the metadata on.
  unfoldable pub metadata_made : String → Result String → State → State × Result Ref
  metadata_made dir (err e) k = (k, err (wrap "marshal metadata: %w" [] e))
  metadata_made dir (ok text) k =
      after (write_file (p.path_join dir "metadata.json") text k) "write metadata: %w"
        (λ k. (k, ok (record { backend = s.backend; locator = dir })))

  -- `time.Now()` is an argument.
  unfoldable pub put : Time → Uuid → Reader → State → State × Result Ref
  unfolding metadata_made
  put now id content k =
      let dir = p.path_join s.base_path (p.uuid_string id) in
      let payload_path = p.path_join dir "payload" in
      after (mkdir_all dir k) "create artifact dir: %w" λ k.
        after (create payload_path k) "create payload file: %w" λ k.
          after (copy payload_path content k) "write payload: %w"
            λ k. metadata_made dir (marshal (record { id = p.uuid_string id; created_at = now })) k

  -- `Get` from the opened file on.
  abbrev pub opened : Result String → Result String
  opened (ok text) = ok text
  opened (err e) = err (wrap "open payload: %w" [] e)

  unfoldable pub get : Ref → State → Result String
  get ref k =
      if not (ref.backend == s.backend)
      then err (errorf "backend mismatch: store is %q, ref is %q" (s.backend ∷ ref.backend ∷ []))
      else opened (open_file (p.path_join ref.locator "payload") k)
