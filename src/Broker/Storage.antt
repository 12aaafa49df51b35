-- ===== src/Broker/Storage.antt =====
-- The storage root of the broker: a directory of namespaces, each a directory of files.
use cmpe272_finaltest_assesm.Prelude.{Option, none, some, List, [], ◌∷◌, ◌++◌, ◌=ₜ◌, if◌then◌else◌}
use cmpe272_finaltest_assesm.Result.{ok, err, os_error}
use cmpe272_finaltest_assesm.Exec.{Exec}
use cmpe272_finaltest_assesm.Bytes.{Bytes, Text}
use cmpe272_finaltest_assesm.Text.{codes, starts_with, ends_with, text_le}
use cmpe272_finaltest_assesm.Dict.{Dict, lookup, insert, erase, keys}

abbrev pub Storage : Type 0
Storage = Dict (Dict Bytes)

abbrev pub dir_of : Option (Dict Bytes) → Dict Bytes
dir_of none = []
dir_of (some d) = d

-- A file below the root, if it is there.
unfoldable pub read_file : Text → Text → Storage → Option Bytes
read_file namespace name fs = lookup name (dir_of (lookup namespace fs))

-- `os.makedirs` of the namespace, then a write or a removal in it.
unfoldable pub write_file : Text → Text → Bytes → Storage → Storage
write_file namespace name bs fs =
    insert namespace (insert name bs (dir_of (lookup namespace fs))) fs

unfoldable pub remove_file : Text → Text → Storage → Storage
remove_file namespace name fs = insert namespace (erase name (dir_of (lookup namespace fs))) fs

abbrev pub tmp_name : Text → Text
tmp_name name = name ++ codes ".tmp"

-- The steps of a PUT after the key is checked: write the temporary file, then rename it. A rename
-- onto `.`, the directory itself, is refused, and the temporary file stays.
unfoldable pub store_blob : Text → Text → Bytes → Exec Storage Unit
store_blob namespace name bs fs =
    let written = write_file namespace (tmp_name name) bs fs in
    if name =ₜ codes "."
    then (err os_error, written)
    else (ok tt, write_file namespace name bs (remove_file namespace (tmp_name name) written))

-- `sorted`, as an insertion sort.
unfoldable pub insert_sorted : Text → List Text → List Text
insert_sorted k [] = k ∷ []
insert_sorted k (j ∷ l) = if text_le k j then k ∷ j ∷ l else j ∷ insert_sorted k l

unfoldable pub sorted : List Text → List Text
sorted [] = []
sorted (k ∷ l) = insert_sorted k (sorted l)

-- The inner loop of LIST, over the names of a namespace.
unfoldable pub list_names : Text → Text → List Text → List Text
list_names prefix namespace [] = []
list_names prefix namespace (name ∷ names) =
    let rest = list_names prefix namespace names in
    let key = namespace ++ (codes "/" ++ name) in
    if ends_with name (codes ".tmp")
    then rest
    else if starts_with key prefix
    then key ∷ rest
    else rest

unfoldable pub list_namespaces : Text → Storage → List Text → List Text
list_namespaces prefix fs [] = []
list_namespaces prefix fs (namespace ∷ namespaces) =
    list_names prefix namespace (sorted (keys (dir_of (lookup namespace fs))))
    ++ list_namespaces prefix fs namespaces

-- The keys that LIST replies with.
unfoldable pub list_keys : Text → Storage → List Text
list_keys prefix fs = list_namespaces prefix fs (sorted (keys fs))
