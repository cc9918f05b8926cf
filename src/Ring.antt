-- ===== src/Ring.antt =====
-- The eBPF ring buffer `EVENTS` between the probes and the agent. The kernel and the crates `aya` and
-- `aya-ebpf` implement it: `RingBuf` lists what the two sides call, and what is documented of it.
-- `Ring/Queue.antt` shows that a bounded queue meets it.
pub mod Queue
use orb.Prelude.{ℕ, ◌≡◌, Option, none, some, List, [], ◌∷◌, ◌++◌}

pub record RingBuf : Type 1 where
  pub Ring : Type 0
  -- the records that are submitted and not yet consumed, oldest first
  pub pending : Ring → List (List ℕ)
  -- `reserve`, `write` and `submit`; `none` if there is no room to reserve
  pub submit : Ring → List ℕ → Option Ring
  -- `next`: consumes the oldest record
  pub next : Ring → Option (List ℕ × Ring)
  pub pending-submit :
      (r r' : Ring) (b : List ℕ) → submit r b ≡ some r' → pending r' ≡ pending r ++ b ∷ []
  pub pending-next_none : (r : Ring) → next r ≡ none → pending r ≡ []
  pub pending-next_some :
      (r r' : Ring) (b : List ℕ) → next r ≡ some (b, r') → pending r ≡ b ∷ pending r'
