-- ===== src/Agent/Pipeline.antt =====
-- From a frame on the wire to an event in the agent: orb8-probes/src/network_probe.rs writes it,
-- orb8-agent/src/probe_loader.rs reads it.
use orb.Probe.Frame.{Frame}
