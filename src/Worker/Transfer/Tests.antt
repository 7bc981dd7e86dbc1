-- ===== src/Worker/Transfer/Tests.antt =====
-- An upload of the one output of a task.
use yirang_taskforge.Prelude.{◌≡◌, refl, none, map, All, List, [], ◌∷◌, Text, bytes, ok}
use yirang_taskforge.Json.Tree.{Tree, tree_json}
use yirang_taskforge.World.{◌>>=◌}
use yirang_taskforge.Worker.Transfer.{result_entry, upload_file, upload_entries, upload_outputs}
use yirang_taskforge.Worker.Transfer.Uploads.{entry_of, file_names, IsServed, upload_outputs-eq-ok}
use yirang_taskforge.Samples.{services, config, world}

abbrev prefix : Text
prefix = bytes "out/"

abbrev dir : Text
dir = bytes "/tmp/taskforge_job-1/outputs"

abbrev links : List Tree
links = result_entry tree_json (bytes "a.wordcount.txt") (bytes "http://s3") ∷ []

uploaded : (upload_outputs tree_json services config prefix dir world).0 ≡ ok links
unfolding upload_outputs upload_entries upload_file ◌>>=◌
uploaded = refl

upload_outputs-eq-ok_example :
    (services.directory_error world dir ≡ none)
    × ((named : List (Text × Text)) × (links
          ≡ map (entry_of tree_json services config prefix dir) named)
        × (map (λ l. l.0) named ≡ file_names (services.directory_entries world dir))
        × All
            (IsServed tree_json services config prefix dir world
              (upload_outputs tree_json services config prefix dir world).1)
            named)
upload_outputs-eq-ok_example =
    upload_outputs-eq-ok tree_json services config prefix dir world links uploaded
