-- ===== src/Examples/Cluster.antt =====
-- Runs of the watcher, the resolver of cgroups, the configuration, the health server and the client.
use orb.Prelude.{
  ◌++◌, ◌*◌, ◌^◌, inr, false, Mem, ◌&&◌, inl, inr, ℕ, ◌*◌, ◌≡◌, refl, arith, true, false, Option,
  none, some, List, [], ◌∷◌, ◌++◌, All,
}
use orb.Prelude.Decimal.{format_uint, parse_uint, parse_digits}
use orb.Prelude.Text.{
  is_whitespace, starts_with, ends_with, strip_prefix, strip_suffix, contains_text, Text, codes,
  split,
}
use orb.Cgroup.Scan.{scan_all_lem}
use orb.Cgroup.{
  Listing, scan_all, container_of, uid_of_name, after_pod, extract_pod_uid_from_path,
  containerd_path, replace, qos_classes,
}
use orb.Cgroup.Uid.{extract_pod_uid_lem}
use orb.Cli.{parse_duration}
use orb.Cli.Durations.{parse_duration_lem}
use orb.Examples.{pod_table, web_ip}
use orb.Health
use orb.HealthServer.{answer}
use orb.HealthServer.Requests.{IsWord, Answers, request_of, answer-request_of}
use orb.Net.{parse_ipv4, ipv4_of_parts, octets}
use orb.PodCache
use orb.PodCache.Reads.{has_place}
use orb.Table.Assoc.{assoc}
use Prim.Native.Nat.{min}
use orb.Watcher.Backoff.{IsFailure, run-backoff, run-cancelled}
use orb.Watcher.{
  Pod, PodStatus, Event, Round, Watcher, handle_pod_apply, handle_pod_delete, run, ip_of,
}
use orb.Watcher.Apply.{apply_then_delete}
use orb.Watcher.Rounds.{IsWithin, run-IsSafe}
use orb.Watcher.Safety.{IsSafe}

abbrev pub status : PodStatus
status = record {
  pod_ip = some (codes "10.0.0.1");
  container_statuses =
      some (record { name = codes "main"; container_id = some (codes "containerd://c1") } ∷ []);
}

abbrev pub web_pod : Pod
web_pod = record {
  namespace = some (codes "prod");
  name = some (codes "web");
  uid = some (codes "u-1");
  status = some status;
}

-- Every container is in the cgroup 7.
abbrev in_cgroup : Text → Text → Option ℕ
in_cgroup uid container_id = some 7

abbrev idle : Watcher pod_table
idle = record { cache = PodCache.new pod_table 10; health = Health.new }

pub status-ip : ip_of status ≡ some web_ip
unfolding parse_ipv4 octets split parse_uint parse_digits ipv4_of_parts
status-ip = refl

place : has_place pod_table idle.cache web_ip ≡ true
unfolding assoc PodCache.new
place = refl

apply_then_delete_example :
    pod_table.get
      (handle_pod_delete pod_table in_cgroup web_pod
        (handle_pod_apply pod_table in_cgroup web_pod idle)).cache.by_ip
      web_ip
    ≡ none
apply_then_delete_example =
    apply_then_delete pod_table in_cgroup web_pod web_ip status idle refl refl status-ip place

-- A round in which the stream fails behind two events, and one in which it ends.
abbrev rounds : List Round
rounds =
    record {
      results = some Event.init ∷ some (Event.apply web_pod) ∷ none ∷ [];
      cancelled_watching = false;
      cancelled_asleep = false;
      cancelled_after = false;
      nanos = 5;
      listed = some (web_pod ∷ []);
    }
    ∷ record {
      results = some Event.init_done ∷ some (Event.delete web_pod) ∷ [];
      cancelled_watching = false;
      cancelled_asleep = false;
      cancelled_after = true;
      nanos = 5;
      listed = none;
    }
    ∷ []

idle-IsSafe : IsSafe pod_table idle
unfolding assoc PodCache.new
idle-IsSafe = record { bounded = omega arith; keyed = λ ip v e. cc; truthful = λ e. cc }

run-IsSafe_example :
    IsWithin 1 30 (run pod_table in_cgroup 1 30 rounds idle).0
    × IsSafe pod_table (run pod_table in_cgroup 1 30 rounds idle).1
run-IsSafe_example = run-IsSafe pod_table in_cgroup 1 30 (omega arith) rounds idle idle-IsSafe

-- The tree of a node with one container, and its path.
abbrev tree : Listing
tree = Listing.file (codes "cgroup.procs") (
    Listing.dir (codes "kubepods-podu_1.slice") (some 8)
      (Listing.dir (codes "cri-containerd-c1.scope") (some 9) Listing.done Listing.done)
      Listing.done)

abbrev container_path : List Text
container_path =
    codes "cri-containerd-c1.scope"
    ∷ codes "kubepods-podu_1.slice"
    ∷ codes "kubepods.slice"
    ∷ codes "cgroup"
    ∷ []

is_scope :
    (starts_with (codes "cri-containerd-c1.scope") (codes "cri-containerd-")
      && ends_with (codes "cri-containerd-c1.scope") (codes ".scope"))
    ≡ true
unfolding starts_with ends_with strip_prefix
is_scope = refl

its_uid :
    container_of container_path (codes "cri-containerd-c1.scope") 9
    ≡ some (9, codes "u-1", codes "c1")
unfolding extract_pod_uid_from_path uid_of_name after_pod strip_prefix strip_suffix starts_with
    ends_with contains_text
its_uid = refl

scan_all_lem_example :
    (found : List (ℕ × Text × Text)) × (scan_all (codes "cgroup" ∷ []) (some tree) ≡ some found)
    × Mem {A = ℕ × Text × Text} (9, codes "u-1", codes "c1") found
scan_all_lem_example =
    scan_all_lem container_path (codes "cri-containerd-c1.scope") 9 (9, codes "u-1", codes "c1")
      is_scope its_uid (codes "cgroup" ∷ []) tree ((tt, tt), tt)
      (inr (inl (inl (refl, refl, refl))))

extract_pod_uid_lem_example :
    All
      (λ qos.
        extract_pod_uid_from_path
          (containerd_path (codes "sys" ∷ []) (replace b'-' b'_' (codes "u-1")) (codes "c1") qos)
        ≡ some (codes "u-1"))
      qos_classes
extract_pod_uid_lem_example =
    extract_pod_uid_lem (codes "sys" ∷ []) (codes "u-1") (codes "c1")
      (ground arith, (ground arith, (ground arith, tt)))

get-IsWord : IsWord (codes "GET")
unfolding is_whitespace
get-IsWord = (refl, ground arith)

path-IsWord : IsWord (codes "/readyz")
unfolding is_whitespace
path-IsWord = (refl, ground arith)

version-IsWord : IsWord (codes "HTTP/1.1")
unfolding is_whitespace
version-IsWord = (refl, ground arith)

answer-request_of_example :
    (text : Text) × (answer Health.new
        (some (request_of (codes "GET") (codes "/readyz") (codes "HTTP/1.1") (codes "Host: x")))
      ≡ some text)
    × Answers Health.new (codes "/readyz") text
answer-request_of_example =
    answer-request_of Health.new (codes "GET") (codes "/readyz") (codes "HTTP/1.1")
      (codes "Host: x") get-IsWord path-IsWord version-IsWord

parse_duration_lem_example :
    (parse_duration (format_uint 30 ++ codes "ms") ≡ some (30 * 1))
    × (parse_duration (format_uint 30 ++ codes "s") ≡ some (30 * 1000))
    × (parse_duration (format_uint 30 ++ codes "m") ≡ some (30 * 60000))
    × (parse_duration (format_uint 30 ++ codes "h") ≡ some (30 * 3600000))
parse_duration_lem_example = parse_duration_lem 30 (omega arith)

-- A round whose stream fails at once.
abbrev failing : Round
failing = record {
  results = none ∷ [];
  cancelled_watching = false;
  cancelled_asleep = false;
  cancelled_after = false;
  nanos = 0;
  listed = none;
}

failing-IsFailure : IsFailure failing
failing-IsFailure = record { fails = tt; watching = refl; asleep = refl; after = refl }

run-backoff_example :
    (run pod_table in_cgroup 1 30 (failing ∷ failing ∷ failing ∷ []) idle).0 ≡ min (2 ^ 3 * 1) 30
run-backoff_example =
    run-backoff pod_table in_cgroup 1 30 (failing ∷ failing ∷ failing ∷ []) idle (omega arith)
      (failing-IsFailure, (failing-IsFailure, (failing-IsFailure, tt)))

abbrev last_round : Round
last_round = record failing { cancelled_after = true }

run-cancelled_example :
    run pod_table in_cgroup 1 30 (failing ∷ [] ++ last_round ∷ rounds) idle
    ≡ run pod_table in_cgroup 1 30 (failing ∷ [] ++ last_round ∷ []) idle
run-cancelled_example =
    run-cancelled pod_table in_cgroup 1 30 (failing ∷ []) last_round rounds idle (inr refl)
