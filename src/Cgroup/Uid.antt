-- ===== src/Cgroup/Uid.antt =====
-- orb8-agent/src/cgroup.rs: the uid of a pod is recovered from the path of each of its containers.
use mathlib.Core.List.{reverse-append, reverse-reverse}
use orb.Prelude.{ℕ, ◌≡◌, refl, ap, true, false, none, some, List, [], ◌∷◌, ◌++◌, arith, All}
use orb.Prelude.Text.{
  Text, Lacks, codes, starts_with, ends_with, strip_prefix, strip_suffix, contains_text,
}
use orb.Cgroup.{
  qos_classes, replace, pod_name, pod_slice, container_scope, containerd_path, after_pod,
  uid_of_name, extract_pod_uid_from_path,
}

-- Dashes that were written as underscores are read back, in a text without underscores.
replace-replace : (s : Text) → Lacks b'_' s → replace b'_' b'-' (replace b'-' b'_' s) ≡ s
replace-replace [] free = refl
replace-replace (c ∷ s) (here, free) =
    let rest : replace b'_' b'-' (replace b'-' b'_' s) ≡ s = replace-replace s free in
    rw rest (ap (λ (x : ℕ). x ∷ s) (ground arith))

ends_with-slice : (s : Text) → ends_with (s ++ codes ".slice") (codes ".slice") ≡ true
unfolding ends_with starts_with strip_prefix
ends_with-slice s = rw (reverse-append s (codes ".slice"))

ends_with-scope : (s : Text) → ends_with (s ++ codes ".scope") (codes ".slice") ≡ false
unfolding ends_with starts_with strip_prefix
ends_with-scope s = rw (reverse-append s (codes ".scope"))

strip_suffix-slice : (s : Text) → strip_suffix (s ++ codes ".slice") (codes ".slice") ≡ some s
unfolding strip_suffix strip_prefix
strip_suffix-slice s = rw (reverse-append s (codes ".slice")) (ap some (reverse-reverse s))

uid_of_name-scope : (container_id : Text) → uid_of_name (container_scope container_id) ≡ none
unfolding uid_of_name
uid_of_name-scope container_id =
    let other : ends_with (container_scope container_id) (codes ".slice") ≡ false =
      ends_with-scope (codes "cri-containerd-" ++ container_id) in
    ground arith

-- The part of a pod's name behind `-pod`, for each class.
after_pod-pod_name :
    (uid : Text)
    → All
        (λ qos.
          (contains_text (pod_name qos uid) (codes "-pod") ≡ true)
          × (after_pod (pod_name qos uid) ≡ some (uid ++ codes ".slice")))
        qos_classes
unfolding after_pod contains_text starts_with strip_prefix
after_pod-pod_name uid = ((refl, refl), ((refl, refl), ((refl, refl), tt)))

uid_of_name-pod_name :
    (qos uid : Text)
    → (contains_text (pod_name qos (replace b'-' b'_' uid)) (codes "-pod") ≡ true)
      × (after_pod (pod_name qos (replace b'-' b'_' uid))
          ≡ some (replace b'-' b'_' uid ++ codes ".slice"))
    → Lacks b'_' uid
    → uid_of_name (pod_name qos (replace b'-' b'_' uid)) ≡ some uid
unfolding uid_of_name
uid_of_name-pod_name qos uid (contains, behind) free =
    let suffix : ends_with (pod_name qos (replace b'-' b'_' uid)) (codes ".slice") ≡ true =
      ends_with-slice (codes "kubepods-" ++ (qos ++ codes "pod") ++ replace b'-' b'_' uid) in
    rw (contains, suffix, behind, strip_suffix-slice (replace b'-' b'_' uid))
      (ap some (replace-replace uid free))

extract-containerd_path :
    (cgroup_root : List Text) (uid container_id qos : Text)
    → uid_of_name (pod_name qos (replace b'-' b'_' uid)) ≡ some uid
    → extract_pod_uid_from_path
        (containerd_path cgroup_root (replace b'-' b'_' uid) container_id qos)
      ≡ some uid
unfolding extract_pod_uid_from_path containerd_path pod_slice
extract-containerd_path cgroup_root uid container_id [] own =
    rw (uid_of_name-scope container_id, own)
extract-containerd_path cgroup_root uid container_id (c ∷ qos) own =
    rw (uid_of_name-scope container_id, own)

-- In each of the three classes, the uid of the pod is recovered from the path that is built from the
-- uid and the id of the container, for a uid without underscores.
pub extract_pod_uid_lem :
    (cgroup_root : List Text) (uid container_id : Text)
    → Lacks b'_' uid
    → All
        (λ qos.
          extract_pod_uid_from_path
            (containerd_path cgroup_root (replace b'-' b'_' uid) container_id qos)
          ≡ some uid)
        qos_classes
extract_pod_uid_lem cgroup_root uid container_id free =
    let (guaranteed, (burstable, (best_effort, end))) =
      after_pod-pod_name (replace b'-' b'_' uid) in
    (
      back [] guaranteed,
      (back (codes "burstable-") burstable, (back (codes "besteffort-") best_effort, tt)),
    )
  where
    back :
        (qos : Text)
        → (contains_text (pod_name qos (replace b'-' b'_' uid)) (codes "-pod") ≡ true)
          × (after_pod (pod_name qos (replace b'-' b'_' uid))
              ≡ some (replace b'-' b'_' uid ++ codes ".slice"))
        → extract_pod_uid_from_path
            (containerd_path cgroup_root (replace b'-' b'_' uid) container_id qos)
          ≡ some uid
    back qos named =
        extract-containerd_path cgroup_root uid container_id qos
          (uid_of_name-pod_name qos uid named free)
