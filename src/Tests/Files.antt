-- ===== src/Tests/Files.antt =====
-- The artifact store's theorems, over files in memory.
use shipinator.Common.{◌≡◌, refl, ◌<>◌, none, string_eq, ne_of_test}
use shipinator.Errors.{ok}
use shipinator.Effects.{Platform}
use shipinator.Filesystem
use shipinator.Filesystem.{Store, put, get, metadata_made, backend_nfs}
use shipinator.Filesystem.Laws.{put-get, put-keeps}
use shipinator.Filesystem.Memory.{Texts, memory, memory_laws}

abbrev platform : Platform
platform = record { uuid_string = λ id. "id"; path_join = λ base name. base <> ("/" <> name) }

abbrev store : Store
store = Filesystem.new backend_nfs "/artifacts"

abbrev no_files : Texts
no_files = λ path. none

put-get_example :
    get platform memory store
      (record { backend = "nfs"; locator = "/artifacts/id" })
      (put platform memory store 1000 6 "bytes" no_files).0
    ≡ ok "bytes"
unfolding put metadata_made string_eq
put-get_example =
    put-get platform memory_laws store 1000 6 "bytes" no_files
      (put platform memory store 1000 6 "bytes" no_files).0
      (record { backend = "nfs"; locator = "/artifacts/id" })
      (ne_of_test "/artifacts/id/payload" "/artifacts/id/metadata.json" refl) refl refl

put-keeps_example :
    (put platform memory store 1000 6 "bytes" no_files).0 "/artifacts/7/payload" ≡ none
unfolding string_eq
put-keeps_example =
    put-keeps platform memory_laws store 1000 6 "bytes" no_files "/artifacts/7/payload"
      (ne_of_test "/artifacts/7/payload" "/artifacts/id/payload" refl)
      (ne_of_test "/artifacts/7/payload" "/artifacts/id/metadata.json" refl)
