-- ===== src/Cgroup.antt =====
-- orb8-agent/src/cgroup.rs: from a container to its cgroup, and back from the path of a cgroup to the
-- uid of the pod. A path is the list of its components, the last one first; the file system is an
-- argument.
pub mod Uid
pub mod Scan
use orb.Prelude.{
  ℕ, Bool, true, false, ◌&&◌, Option, none, some, ◌>>=◌, List, [], ◌∷◌, ◌++◌, map, if◌then◌else◌,
  ◌==◌, is_empty, or_else, unwrap_or,
}
use orb.Prelude.Text.{
  Text, codes, starts_with, ends_with, strip_prefix, strip_suffix, contains_text, trim_end_matches,
}

abbrev pub qos_classes : List Text
qos_classes = [] ∷ codes "burstable-" ∷ codes "besteffort-" ∷ []

-- `str::replace` with characters
abbrev pub replace : ℕ → ℕ → Text → Text
replace from to = map (λ c. if c == from then to else c)

-- The part behind the last `://` of what is left, or `part` if there is none.
unfoldable pub last_part : Text → Text → Text
last_part [] part = part
last_part (c ∷ s) part = elim (strip_prefix (c ∷ s) (codes "://")) [
  | none ↦ last_part s part
  | some rest ↦ last_part s rest
]

-- `container_id.split("://").last()`
abbrev pub clean_container_id : Text → Text
clean_container_id container_id = last_part container_id container_id

abbrev pub pod_name : Text → Text → Text
pod_name qos pod_uid = (codes "kubepods-" ++ (qos ++ codes "pod") ++ pod_uid) ++ codes ".slice"

-- The components of `pod_slice`, the last one first.
unfoldable pub pod_slice : Text → Text → List Text
unfolding trim_end_matches
pod_slice qos pod_uid =
    if is_empty qos
    then pod_name qos pod_uid ∷ []
    else pod_name qos pod_uid
      ∷ ((codes "kubepods-" ++ trim_end_matches qos (codes "-")) ++ codes ".slice")
      ∷ []

abbrev pub container_scope : Text → Text
container_scope container_id = (codes "cri-containerd-" ++ container_id) ++ codes ".scope"

-- The path that `try_containerd_path` looks at.
unfoldable pub containerd_path : List Text → Text → Text → Text → List Text
containerd_path cgroup_root pod_uid container_id qos =
    container_scope container_id ∷ (pod_slice qos pod_uid ++ codes "kubepods.slice" ∷ cgroup_root)

-- The name of a directory of a pod: the part behind `-pod`, with dashes for underscores.
unfoldable pub after_pod : Text → Option Text
after_pod [] = none
after_pod (c ∷ s) = elim (strip_prefix (c ∷ s) (codes "-pod")) [
  | some rest ↦ some rest
  | none ↦ after_pod s
]

unfoldable pub uid_of_name : Text → Option Text
uid_of_name name =
    if contains_text name (codes "-pod") && ends_with name (codes ".slice")
    then (do
      uid_part ← after_pod name
      uid ← strip_suffix uid_part (codes ".slice")
      some (replace b'_' b'-' uid))
    else none

-- `for ancestor in path.ancestors()`
unfoldable pub extract_pod_uid_from_path : List Text → Option Text
extract_pod_uid_from_path [] = none
extract_pod_uid_from_path (name ∷ path) =
    or_else (uid_of_name name) (extract_pod_uid_from_path path)

-- What `read_dir` yields: files, directories with their inode, if it can be read, and their own
-- content, and an error that ends the listing.
pub data Listing : Type 0 where
  done : Listing
  failed : Listing
  file : Text → Listing → Listing
  dir : Text → Option ℕ → Listing → Listing → Listing

-- The entry for a directory that is the scope of a container.
abbrev pub container_of : List Text → Text → ℕ → Option (ℕ × Text × Text)
container_of path name inode = do
  pod_uid ← extract_pod_uid_from_path path
  some (
    inode,
    pod_uid,
    unwrap_or (do s ← strip_prefix name (codes "cri-containerd-"); strip_suffix s (codes ".scope"))
        [],
  )

unfoldable pub push_found :
    Option (ℕ × Text × Text) → List (ℕ × Text × Text) → List (ℕ × Text × Text)
push_found none results = results
push_found (some found) results = results ++ found ∷ []

unfoldable pub add_container :
    List Text → Text → Option ℕ → List (ℕ × Text × Text) → List (ℕ × Text × Text)
unfolding push_found
add_container path name none results = results
add_container path name (some inode) results =
    if starts_with name (codes "cri-containerd-") && ends_with name (codes ".scope")
    then push_found (container_of path name inode) results
    else results

-- `none` is an error, which loses the results so far.
unfoldable pub scan_directory :
    List Text → Listing → List (ℕ × Text × Text) → Option (List (ℕ × Text × Text))
scan_directory path done results = some results
scan_directory path failed results = none
scan_directory path (file name rest) results = scan_directory path rest results
scan_directory path (dir name inode content rest) results = do
  inside ← scan_directory (name ∷ path) content results
  scan_directory path rest (add_container (name ∷ path) name inode inside)

-- The listing is that of `kubepods.slice`, if it exists.
unfoldable pub scan_all : List Text → Option Listing → Option (List (ℕ × Text × Text))
scan_all cgroup_root none = some []
scan_all cgroup_root (some listing) =
    scan_directory (codes "kubepods.slice" ∷ cgroup_root) listing []

-- The file system: the inode of a path, if it exists.
module _ (get_inode : List Text → Option ℕ) (cgroup_root : List Text) where
  -- `for qos in QOS_CLASSES`
  unfoldable pub try_classes : Text → Text → List Text → Option ℕ
  try_classes pod_uid container_id [] = none
  try_classes pod_uid container_id (qos ∷ classes) =
      or_else (get_inode (containerd_path cgroup_root pod_uid container_id qos))
        (try_classes pod_uid container_id classes)

  unfoldable pub resolve : Text → Text → Option ℕ
  resolve pod_uid container_id =
      try_classes (replace b'-' b'_' pod_uid) (clean_container_id container_id) qos_classes
