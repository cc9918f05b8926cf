-- ===== src/Cgroup/Scan.antt =====
-- orb8-agent/src/cgroup.rs: what the scan of the cgroup file system finds.
use mathlib.Core.Logic.Or
use orb.Prelude.{
  ℕ, ◌≡◌, refl, ◌∙◌, ◌⊎◌, inl, inr, true, ◌&&◌, Option, none, some, List, [], ◌∷◌, Mem, mem-append,
  mem-cons_self, Bool-cases,
}
use orb.Prelude.Text.{Text, codes, starts_with, ends_with}
use orb.Cgroup.{
  Listing, done, failed, file, dir, container_of, push_found, add_container, scan_directory,
  scan_all,
}

-- Every directory of the tree can be read.
abbrev pub IsReadable : Listing → Type 0
IsReadable done = Unit
IsReadable failed = ⊥
IsReadable (file name rest) = IsReadable rest
IsReadable (dir name inode content rest) = IsReadable content × IsReadable rest

-- The tree under `path` has a directory of the name and the inode, with the path `target`.
abbrev pub HasDir : List Text → Listing → List Text → Text → ℕ → Type 0
HasDir path done target name inode = ⊥
HasDir path failed target name inode = ⊥
HasDir path (file other rest) target name inode = HasDir path rest target name inode
HasDir path (dir other i content rest) target name inode =
    ((i ≡ some inode) × (other ≡ name) × (other ∷ path ≡ target))
    ⊎ (HasDir (other ∷ path) content target name inode ⊎ HasDir path rest target name inode)

abbrev pub Found : Type 0
Found = List (ℕ × Text × Text)

push_found-mem :
    (o : Option (ℕ × Text × Text)) (results : Found) {r : ℕ × Text × Text}
    → Mem r results
    → Mem r (push_found o results)
unfolding push_found
push_found-mem none results m = m
push_found-mem (some found) results m = mem-append.1 (Or.inl m)

add_container-mem :
    (path : List Text) (name : Text) (inode : Option ℕ) (results : Found) {r : ℕ × Text × Text}
    → Mem r results
    → Mem r (add_container path name inode results)
unfolding add_container
add_container-mem path name none results m = m
add_container-mem path name (some inode) results {r} m =
    elim (Bool-cases
      (starts_with name (codes "cri-containerd-") && ends_with name (codes ".scope"))) [
        | inl scope ↦ rw scope (push_found-mem (container_of path name inode) results m)
        | inr other ↦ rw other m
      ]

scan_dir :
    (path : List Text) (name : Text) (inode : Option ℕ) (content rest : Listing)
    (results inside : Found)
    → scan_directory (name ∷ path) content results ≡ some inside
    → scan_directory path (dir name inode content rest) results
      ≡ scan_directory path rest (add_container (name ∷ path) name inode inside)
unfolding scan_directory
scan_dir path name inode content rest results inside e = rw (e, scan_directory)

-- A readable tree is scanned to the end, and nothing that was found before is lost.
scan_directory-keeps :
    (path : List Text) (listing : Listing) (results : Found)
    → IsReadable listing
    → (found : Found) × (scan_directory path listing results ≡ some found)
      × ((r : ℕ × Text × Text) → Mem r results → Mem r found)
unfolding scan_directory
scan_directory-keeps path done results readable = (results, refl, λ r m. m)
scan_directory-keeps path failed results readable = absurd readable
scan_directory-keeps path (file name rest) results readable =
    scan_directory-keeps path rest results readable
scan_directory-keeps path (dir name inode content rest) results (inner, outer) =
    let (inside, e, keep) = scan_directory-keeps (name ∷ path) content results inner in
    let (found, e', keep') =
      scan_directory-keeps path rest (add_container (name ∷ path) name inode inside) outer in
    (
      found,
      scan_dir path name inode content rest results inside e ∙ e',
      λ r m. keep' r (add_container-mem (name ∷ path) name inode inside (keep r m)),
    )

module _ (target : List Text) (name : Text) (inode : ℕ) (entry : ℕ × Text × Text)
    (scope : (starts_with name (codes "cri-containerd-") && ends_with name (codes ".scope")) ≡ true)
    (own : container_of target name inode ≡ some entry) where
  add_container-entry :
      (path : List Text) (n : Text) (i : Option ℕ) (results : Found)
      → i ≡ some inode
      → n ≡ name
      → path ≡ target
      → Mem entry (add_container path n i results)
  unfolding add_container push_found
  add_container-entry path n i results at same_name same_path =
      rw (at, same_name, same_path, scope, own) (mem-append.1 (Or.inr mem-cons_self))

  scan_directory-finds :
      (path : List Text) (listing : Listing) (results : Found)
      → IsReadable listing
      → HasDir path listing target name inode
      → (found : Found) × (scan_directory path listing results ≡ some found) × Mem entry found
  unfolding scan_directory
  scan_directory-finds path done results readable has = absurd has
  scan_directory-finds path failed results readable has = absurd has
  scan_directory-finds path (file other rest) results readable has =
      scan_directory-finds path rest results readable has
  scan_directory-finds path (dir other i content rest) results (inner, outer)
        (inl (at, same_name, same_path)) =
      let (inside, e, keep) = scan_directory-keeps (other ∷ path) content results inner in
      let (found, e', keep') =
        scan_directory-keeps path rest (add_container (other ∷ path) other i inside) outer in
      (
        found,
        scan_dir path other i content rest results inside e ∙ e',
        keep' entry (add_container-entry (other ∷ path) other i inside at same_name same_path),
      )
  scan_directory-finds path (dir other i content rest) results (inner, outer) (inr (inl has)) =
      let (inside, e, m) = scan_directory-finds (other ∷ path) content results inner has in
      let (found, e', keep') =
        scan_directory-keeps path rest (add_container (other ∷ path) other i inside) outer in
      (
        found,
        scan_dir path other i content rest results inside e ∙ e',
        keep' entry (add_container-mem (other ∷ path) other i inside m),
      )
  scan_directory-finds path (dir other i content rest) results (inner, outer) (inr (inr has)) =
      let (inside, e, keep) = scan_directory-keeps (other ∷ path) content results inner in
      let (found, e', m) =
        scan_directory-finds path rest (add_container (other ∷ path) other i inside) outer has in
      (found, scan_dir path other i content rest results inside e ∙ e', m)

  -- The scan of a readable tree ends, and finds every container of it: for each directory with the
  -- name of a container's scope, of whose path a uid can be read, the result has its inode, the uid
  -- and the id of the container.
  pub scan_all_lem :
      (cgroup_root : List Text) (listing : Listing)
      → IsReadable listing
      → HasDir (codes "kubepods.slice" ∷ cgroup_root) listing target name inode
      → (found : Found) × (scan_all cgroup_root (some listing) ≡ some found) × Mem entry found
  unfolding scan_all
  scan_all_lem cgroup_root listing readable has =
      scan_directory-finds (codes "kubepods.slice" ∷ cgroup_root) listing [] readable has
