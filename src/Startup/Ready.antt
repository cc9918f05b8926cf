-- ===== src/Startup/Ready.antt =====
-- orb8-agent/src/main.rs: what the start has achieved where it succeeds.
use orb.Prelude.{
  ℕ, [], ◌∷◌, subst, arith, inl, inr, Bool-cases, ◌≡◌, refl, ap, sym, ◌∙◌, Option, none, some, List,
  ◌++◌, map,
}
use orb.Prelude.Text.{Text, codes}
use orb.Prelude.Results.{Result, ok, error, ok-inj, error-ne-ok, bind-ok}
use orb.Aggregator.{FlowKey, FlowStats}
use orb.Bpf.{Bpf, AttachType}
use orb.Config.{AgentConfig, from_env, from_secs}
use orb.Grpc.Service.{start_server}
use orb.PodCache.{PodMetadata}
use orb.ProbeLoader.{supported, rejected, KernelCheck, check_kernel_version, discover_interfaces}
use orb.ProbeLoader.Attach.{attach_to_interfaces}
use orb.ProbeLoader.Coverage.{IsChoice, attachment, attach_to_interfaces_lem}
use orb.ProbeLoader.Manager
use orb.ProbeLoader.Manager.{
  NewError, EventsMap, RingError, or_error, events_ring_buf, load_network_probe,
  run_preflight_checks, of_check, check_btf, check_capabilities,
}
use orb.Ring.{RingBuf}
use orb.Startup.{
  World, Running, Failure, Occurrence, Loop, main_loop, begin, watched_pods, startup, server_config,
  register_sigterm,
}
use orb.System.{State}
use orb.System.Limits.{Limited, Limited-IsClosed}
use orb.System.Safety.{IsSound, start-IsSound, step-IsSound, watched-IsSound}
use orb.Agent.{AgentState}
use orb.Watcher
use orb.Watcher.{Watcher}
use orb.Watcher.Rounds.{run-IsSafe, run_from-IsFine}
use orb.Table.{Table}

module _ (B : Bpf) (F : Table FlowKey FlowStats) (P : Table ℕ PodMetadata) (R : RingBuf) where
  abbrev agent_of : Loop F P R → AgentState F P
  agent_of (Loop.waiting s) = s.agent
  agent_of (Loop.cancelled s rest) = s.agent

  -- The agent behind the occurrences that its loop has met.
  abbrev pub agent_after : World B R → Running B F P R → List Occurrence → AgentState F P
  agent_after w r occurrences = agent_of (
      main_loop F P R w.resolve r.config.grpc_port r.local_ips r.config.max_batch_size occurrences
        r.state)

  -- The kernel is supported and the object is loaded. The two classifiers watch some of the
  -- discovered interfaces, and every one that accepts them. The flows and the pods keep the limits of
  -- the environment behind the occurrences.
  pub record IsReady (w : World B R) (r : Running B F P R) (occurrences : List Occurrence)
      : Type 0 where
    pub kernel : check_kernel_version w.preflight.uname ≡ supported
    pub bpf : B.Object
    pub loaded : w.object ≡ some bpf
    pub ins : List Text
    pub outs : List Text
    pub incoming :
        IsChoice B (codes "network_probe") AttachType.ingress (discover_interfaces w.host) ins
    pub outgoing :
        IsChoice B
          (codes "network_probe_egress")
          AttachType.egress
          (discover_interfaces w.host)
          outs
    pub attached :
        B.attached r.bpf
        ≡ B.attached bpf
          ++ map (attachment (codes "network_probe") AttachType.ingress) ins
          ++ map (attachment (codes "network_probe_egress") AttachType.egress) outs
    pub sound :
        IsSound F P
          (from_env w.var).max_flows
          (from_env w.var).max_pod_cache_entries
          (agent_after w r occurrences)

  -- The pods that the watcher finds during the start keep the limit.
  watched_pods-IsSound :
      (max_flows max_entries : ℕ) (w : World B R) (s : AgentState F P)
      → IsSound F P max_flows max_entries s
      → IsSound F P max_flows max_entries (watched_pods B F P R w s)
  unfolding watched_pods
  watched_pods-IsSound max_flows max_entries w s sound =
      let before : Watcher P = record { cache = s.pod_cache; health = s.health } in
      elim (Bool-cases w.kubernetes_available) [
        | inl available ↦ rw available (
            watched-IsSound F P max_flows max_entries R
              (λ v. (Watcher.run P w.resolve (from_secs 1) (from_secs 30) w.rounds v).1) s
              (
                (run_from-IsFine P w.resolve (from_secs 1) (from_secs 30) (omega arith)
                    (Limited P max_entries) (Limited-IsClosed P max_entries) w.rounds (from_secs 1)
                    before (omega arith, omega arith) sound.entries).1,
                (run-IsSafe P w.resolve (from_secs 1) (from_secs 30) (omega arith) w.rounds before
                    sound.pods).1,
              )
              sound)
        | inr missing ↦ rw missing sound
      ]

  begin-IsSound :
      (w : World B R) (config : AgentConfig) (ring : R.Ring)
      → IsSound F P config.max_flows config.max_pod_cache_entries
          (begin B F P R w config ring).agent
  unfolding begin
  begin-IsSound w config ring =
      watched_pods-IsSound config.max_flows config.max_pod_cache_entries w _ (
        start-IsSound F P config.max_flows config.max_pod_cache_entries 0 [] R w.resolve 0
          config.flow_timeout ring)

  main_loop-IsSound :
      (max_flows max_entries : ℕ) (resolve : Text → Text → Option ℕ) (grpc_port : ℕ)
      (local_ips : List ℕ) (max_batch_size : ℕ) (occurrences : List Occurrence) (s : State F P R)
      → IsSound F P max_flows max_entries s.agent
      → IsSound F P max_flows max_entries
          (agent_of (main_loop F P R resolve grpc_port local_ips max_batch_size occurrences s))
  unfolding main_loop
  main_loop-IsSound max_flows max_entries resolve grpc_port local_ips size [] s sound = sound
  main_loop-IsSound max_flows max_entries resolve grpc_port local_ips size
        (Occurrence.sigint ∷ rest) s sound =
      sound
  main_loop-IsSound max_flows max_entries resolve grpc_port local_ips size
        (Occurrence.sigterm ∷ rest) s sound =
      sound
  main_loop-IsSound max_flows max_entries resolve grpc_port local_ips size (Occurrence.act m ∷ rest)
        s sound =
      main_loop-IsSound max_flows max_entries resolve grpc_port local_ips size rest _
        (step-IsSound F P max_flows max_entries grpc_port local_ips R resolve size m s sound)

  preflight-supported : (c : KernelCheck) (u : Unit) → of_check c ≡ ok u → c ≡ supported
  preflight-supported supported u e = refl
  preflight-supported (rejected k) u e = absurd (error-ne-ok k u e)

  or_error-ok :
      {E1 E2 A : Type 0} (wrap : E1 → E2) (o : Result E1 A) (a : A)
      → or_error wrap o ≡ ok a
      → o ≡ ok a
  or_error-ok wrap (ok b) a e = ap ok (ok-inj b a e)
  or_error-ok wrap (error k) a e = absurd (error-ne-ok (wrap k) a e)

  load_network_probe-some :
      {A : Type 0} (o : Option A) (a : A) → load_network_probe o ≡ ok a → o ≡ some a
  load_network_probe-some none a e = absurd (error-ne-ok NewError.not_loaded a e)
  load_network_probe-some (some b) a e = ap some (ok-inj b a e)

  new-loaded :
      (w : World B R) (bpf : B.Object)
      → Manager.new w.preflight w.object ≡ ok bpf
      → (check_kernel_version w.preflight.uname ≡ supported) × (w.object ≡ some bpf)
  unfolding Manager.new run_preflight_checks
  new-loaded w bpf e =
      let (u, checked, rest) =
        bind-ok (or_error NewError.preflight (run_preflight_checks w.preflight)) _ bpf e in
      let (v, kernel, others) =
        bind-ok (of_check (check_kernel_version w.preflight.uname)) _ u
          (or_error-ok NewError.preflight _ u checked) in
      (preflight-supported _ v kernel, load_network_probe-some w.object bpf rest)

  -- Where the start succeeds, the kernel is supported and the object is loaded, and behind what was
  -- attached to the object before stand the two classifiers, each on some of the discovered
  -- interfaces and on every one that accepts it. Whatever the watcher has found by then, and whatever
  -- the loop meets, signals included, the tables of flows and of pods by address keep the limits
  -- that the environment sets (one flow, if the limit is 0).
  pub startup-IsReady :
      (w : World B R) (r : Running B F P R) (occurrences : List Occurrence)
      → startup B F P R w ≡ ok r
      → IsReady w r occurrences
  unfolding startup
  startup-IsReady w r occurrences e =
      let (service, served, e1) =
        bind-ok
          (or_error Failure.not_served (
            start_server w.channel_accepts (server_config (from_env w.var))
              (w.var (codes "NODE_NAME")) w.hostname w.now))
          _ r e in
      let (manager, manager_eq, e2) =
        bind-ok (or_error Failure.not_created (Manager.new w.preflight w.object)) _ r e1 in
      let (bpf, bpf_eq, e3) =
        bind-ok
          (or_error Failure.not_attached
            (attach_to_interfaces B (discover_interfaces w.host) manager))
          _ r e2 in
      let (ring, ring_eq, e4) =
        bind-ok (or_error Failure.no_ring (events_ring_buf R w.events)) _ r e3 in
      let (u2, registered, e5) = bind-ok (register_sigterm B F P R w.sigterm_registered) _ r e4 in
      let same = ok-inj _ r e5 in
      let (supported_eq, loaded_eq) =
        new-loaded w manager (or_error-ok Failure.not_created _ manager manager_eq) in
      let (ins, outs, incoming, outgoing, attached_eq) =
        attach_to_interfaces_lem B (discover_interfaces w.host) manager bpf
          (or_error-ok Failure.not_attached _ bpf bpf_eq) in
      record {
        kernel = supported_eq;
        bpf = manager;
        loaded = loaded_eq;
        ins = ins;
        outs = outs;
        incoming = incoming;
        outgoing = outgoing;
        attached = ap (λ (x : Running B F P R). B.attached x.bpf) (sym same) ∙ attached_eq;
        sound =
            main_loop-IsSound (from_env w.var).max_flows (from_env w.var).max_pod_cache_entries
              w.resolve r.config.grpc_port r.local_ips r.config.max_batch_size occurrences r.state
              (subst
                (λ (x : Running B F P R).
                  IsSound F P (from_env w.var).max_flows (from_env w.var).max_pod_cache_entries
                    x.state.agent)
                same (begin-IsSound w (from_env w.var) ring));
      }
