-- ===== src/Examples.antt =====
-- The data that the runs at concrete inputs share: tables that are association lists, two pods, and
-- the events of their traffic. Each child module holds the runs of one part.
mod Wire
mod Interleavings
mod Starts
mod Races
mod Client
mod Hosts
mod Pods
mod Flows
mod Rounds
mod Cluster
use orb.Prelude.{ℕ, ℕ_discrete, Option, none, some, List, [], ◌∷◌}
use orb.Prelude.Text.{Text, Text-discrete, codes}
use orb.Aggregator.{FlowKey, FlowStats}
use orb.Common.{NetworkFlowEvent, ingress, egress, tcp}
use orb.PodCache.{PodMetadata}
use orb.Table.{Table}
use orb.Table.Assoc.{assoc}

unfoldable pub FlowKey-discrete : Discrete FlowKey
FlowKey-discrete = hlevel (Text-discrete, ℕ_discrete)

pub FlowStats-IsSet : IsSet FlowStats
FlowStats-IsSet = hlevel

pub PodMetadata-IsSet : IsSet PodMetadata
PodMetadata-IsSet = hlevel

abbrev pub flow_table : Table FlowKey FlowStats
flow_table = assoc FlowKey-discrete FlowStats-IsSet

abbrev pub pod_table : Table ℕ PodMetadata
pod_table = assoc ℕ_discrete PodMetadata-IsSet

-- 10.0.0.1 and 10.0.0.2, the first octet in the lowest byte
abbrev pub web_ip : ℕ
web_ip = 0x0100000A

abbrev pub db_ip : ℕ
db_ip = 0x0200000A

abbrev pub pod : ℕ → Text → PodMetadata
pod ip name = record {
  namespace = codes "prod";
  pod_name = name;
  pod_uid = name;
  container_name = codes "main";
  container_id = codes "c1";
  pod_ip = some ip;
}

abbrev pub web : PodMetadata
web = pod web_ip (codes "web")

abbrev pub db : PodMetadata
db = pod db_ip (codes "db")

-- A packet from the web pod to the database.
abbrev pub request : NetworkFlowEvent
request = record {
  timestamp_ns = 1000;
  cgroup_id = 0;
  src_ip = web_ip;
  dst_ip = db_ip;
  src_port = 40000;
  dst_port = 5432;
  protocol = tcp;
  direction = ingress;
  packet_len = 100;
}

-- A packet of the answer.
abbrev pub response : NetworkFlowEvent
response = record {
  timestamp_ns = 2000;
  cgroup_id = 0;
  src_ip = db_ip;
  dst_ip = web_ip;
  src_port = 5432;
  dst_port = 40000;
  protocol = tcp;
  direction = ingress;
  packet_len = 900;
}
