-- ===== src/Health/Message.antt =====
-- orb8-agent/src/health.rs: what the health message tells.
use orb.Prelude.{◌≡◌, refl, ◌↔◌, inl, inr, Bool, true, false, not, arith, is_empty, Bool-cases}
use orb.Prelude.Text.{Text, codes, starts_with}
use orb.Health.{HealthState, is_healthy, issues, counts_something, health_message}

-- No flag speaks against the agent.
pub record IsClean (h : HealthState) : Type 0 where
  pub probes : h.probes_attached ≡ true
  pub flows : h.flow_table_at_capacity ≡ false
  pub watcher : h.k8s_watcher_connected ≡ true
  pub pods : h.pod_cache_at_capacity ≡ false

pub issues-is_empty_iff : (h : HealthState) → (is_empty (issues h) ≡ true) ↔ IsClean h
unfolding issues
issues-is_empty_iff h = (λ e. ground arith, λ c. ground arith)

-- How a health message begins.
abbrev pub says : HealthState → Text → Bool
says h word = starts_with (health_message h) word

message_clean :
    (h : HealthState)
    → is_empty (issues h) ≡ true
    → (says h (codes "OK") ≡ true) × (says h (codes "UNHEALTHY: ") ≡ false)
unfolding health_message starts_with
message_clean h e = elim (Bool-cases (counts_something h)) [
  | inl c ↦ rw (e, c) (refl, refl)
  | inr c ↦ rw (e, c) (refl, refl)
]

message_with_issues :
    (h : HealthState)
    → is_empty (issues h) ≡ false
    → (says h (codes "OK") ≡ false) × (says h (codes "UNHEALTHY: ") ≡ not (is_healthy h))
unfolding health_message starts_with
message_with_issues h e = elim (Bool-cases (is_healthy h)) [
  | inl c ↦ rw (e, c) (refl, refl)
  | inr c ↦ rw (e, c) (refl, refl)
]

unhealthy_has_issues : (h : HealthState) → is_healthy h ≡ false → is_empty (issues h) ≡ false
unfolding is_healthy issues
unhealthy_has_issues h e = ground arith

-- The message begins with `OK` exactly if all four flags are good, and with `UNHEALTHY: ` exactly
-- if `is_healthy` fails.
pub health_message_tells :
    (h : HealthState)
    → ((says h (codes "OK") ≡ true) ↔ IsClean h)
      × (says h (codes "UNHEALTHY: ") ≡ not (is_healthy h))
health_message_tells h = elim (Bool-cases (is_empty (issues h))) [
  | inl e ↦ (
    (λ _. (issues-is_empty_iff h).0 e, λ _. (message_clean h e).0),
    cc ((message_clean h e).1, healthy e),
  )
  | inr e ↦ (
    (λ ok. absurd (cc (message_with_issues h e).0), λ clean. cc ((issues-is_empty_iff h).1 clean)),
    (message_with_issues h e).1,
  )
]
  where
    healthy : is_empty (issues h) ≡ true → is_healthy h ≡ true
    healthy e = elim (Bool-cases (is_healthy h)) [
      | inl ok ↦ ok
      | inr bad ↦ cc (unhealthy_has_issues h bad)
    ]
