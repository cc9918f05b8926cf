-- ===== src/ProbeLoader/Interfaces.antt =====
-- orb8-agent/src/probe_loader.rs: the interfaces that the probes are attached to.
use orb.Prelude.{
  ◌≡◌, ◌≢◌, inl, inr, some, List, [], ◌∷◌, ◌++◌, arith, Mem, Bool-cases, Option-cases, contains,
  contains_iff, drop, mem-cons_self, mem-append, not-mem-nil, ◌∙◌,
}
use mathlib.Core.Logic.Or
use orb.Prelude.Text.{Text, Text-discrete, codes, split_whitespace, lines}
use orb.ProbeLoader.{
  Host, get_default_route_interface, find_docker_bridge, primary_interfaces, first_bridge,
  add_docker_bridge, or_loopback, discover_interfaces, route_interface, first_route,
}

add_docker_bridge-mem :
    (host : Host) (interfaces : List Text) {name : Text}
    → Mem name interfaces
    → Mem name (add_docker_bridge host interfaces)
unfolding add_docker_bridge
add_docker_bridge-mem host interfaces m = elim (Option-cases (find_docker_bridge host.net_names)) [
  | inl e ↦ rw (e, add_docker_bridge) m
  | inr (bridge, e) ↦ elim (Bool-cases (contains Text-discrete interfaces bridge)) [
    | inl old ↦ rw (e, add_docker_bridge, old) m
    | inr fresh ↦ rw (e, add_docker_bridge, fresh) (mem-append.1 (Or.inl m))
  ]
]

add_docker_bridge-bridge :
    (host : Host) (interfaces : List Text) (bridge : Text)
    → find_docker_bridge host.net_names ≡ some bridge
    → Mem bridge (add_docker_bridge host interfaces)
unfolding add_docker_bridge
add_docker_bridge-bridge host interfaces bridge e =
    elim (Bool-cases (contains Text-discrete interfaces bridge)) [
      | inl old ↦
          rw (e, add_docker_bridge, old) ((contains_iff Text-discrete interfaces bridge).0 old)
      | inr fresh ↦ rw (e, add_docker_bridge, fresh) (mem-append.1 (Or.inr mem-cons_self))
    ]

or_loopback-mem :
    (interfaces : List Text) {name : Text} → Mem name interfaces → Mem name (or_loopback interfaces)
or_loopback-mem [] m = absurd (not-mem-nil m)
or_loopback-mem (i ∷ is) m = m

or_loopback-ne-nil : (interfaces : List Text) → or_loopback interfaces ≢ []
or_loopback-ne-nil [] = λ e. cc
or_loopback-ne-nil (i ∷ is) = λ e. cc

primary_interfaces-mem :
    (host : Host) (primary : Text)
    → get_default_route_interface host ≡ some primary
    → Mem primary (primary_interfaces host)
unfolding primary_interfaces
primary_interfaces-mem host primary e = rw (e, primary_interfaces) mem-cons_self

route_interface-ne-lo :
    (fields : List Text) (i : Text) → route_interface fields ≡ some i → i ≢ codes "lo"
route_interface-ne-lo [] i e = cc
route_interface-ne-lo (f ∷ []) i e = cc
route_interface-ne-lo (f ∷ d ∷ fs) i e = ground arith

first_route-ne-lo : (ls : List Text) (i : Text) → first_route ls ≡ some i → i ≢ codes "lo"
unfolding first_route
first_route-ne-lo [] i e = cc
first_route-ne-lo (l ∷ ls) i e = elim (Option-cases (route_interface (split_whitespace l))) [
  | inl miss ↦ first_route-ne-lo ls i (rw miss at e)
  | inr (j, hit) ↦ route_interface-ne-lo (split_whitespace l) i (hit ∙ rw hit at e)
]

get_default_route_interface-ne-lo :
    (host : Host) (i : Text) → get_default_route_interface host ≡ some i → i ≢ codes "lo"
unfolding get_default_route_interface
get_default_route_interface-ne-lo host i e = elim (Option-cases host.route) [
  | inl miss ↦ cc (rw miss at e)
  | inr (content, hit) ↦ first_route-ne-lo (drop 1 (lines content)) i (rw hit at e)
]

-- There is always an interface to attach the probes to.
pub discover_interfaces-ne-nil : (host : Host) → discover_interfaces host ≢ []
unfolding discover_interfaces
discover_interfaces-ne-nil host = or_loopback-ne-nil (
    add_docker_bridge host (
      primary_interfaces host
      ++ first_bridge host (codes "cni0" ∷ codes "docker0" ∷ codes "cbr0" ∷ [])))

-- The interface of a default route is among them, and is not the loopback interface.
pub discover_interfaces-primary :
    (host : Host) (primary : Text)
    → get_default_route_interface host ≡ some primary
    → Mem primary (discover_interfaces host) × (primary ≢ codes "lo")
unfolding discover_interfaces
discover_interfaces-primary host primary e = (
  or_loopback-mem _ (
      add_docker_bridge-mem host _ (mem-append.1 (Or.inl (primary_interfaces-mem host primary e)))),
  get_default_route_interface-ne-lo host primary e,
)

-- The first bridge of Docker that the host lists is among them.
pub discover_interfaces-bridge :
    (host : Host) (bridge : Text)
    → find_docker_bridge host.net_names ≡ some bridge
    → Mem bridge (discover_interfaces host)
unfolding discover_interfaces
discover_interfaces-bridge host bridge e =
    or_loopback-mem _ (add_docker_bridge-bridge host _ bridge e)
