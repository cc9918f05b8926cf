-- ===== src/Net/Trie.antt =====
-- orb8-agent/src/net.rs: which addresses of the routing trie `resolve_local_ips` returns.
use mathlib.Core.Logic.{∥∥₁_elim}
use mathlib.Core.Logic.Or
use orb.Prelude.{
  ℕ, ◌≡◌, ◌↔◌, ◌⊎◌, inl, inr, sym, subst, true, ◌&&◌, List, [], ◌∷◌, Option, none, some, Mem,
  Mem-prop, mem-cons, mem-cons_self, not-mem-nil, Bool-cases, contains, contains_iff, ℕ_discrete,
}
use orb.Prelude.Text.{Text, lines}
use orb.Net.{
  loopback, add_local_ip, local_ips_from, resolve_local_ips, line_ip, is_entry, next_is_local,
  insert_found,
}
use orb.Net.LocalIps.{local_ips_from-mem}

-- The entry of an address, with the mark of a local address on the line behind it.
pub record IsLocalEntry (ip : ℕ) (line : Text) (rest : List Text) : Type 0 where
  pub marked : (is_entry line && next_is_local rest) ≡ true
  pub address : line_ip line ≡ some ip

-- Some line of the trie is such an entry.
pub data IsListed (ip : ℕ) : List Text → Type 0 where
  here : {line : Text} {rest : List Text} → IsLocalEntry ip line rest → IsListed ip (line ∷ rest)
  there : {line : Text} {rest : List Text} → IsListed ip rest → IsListed ip (line ∷ rest)

insert_found→mem :
    (o : Option ℕ) (ips : List ℕ) (ip : ℕ)
    → Mem ip (insert_found o ips)
    → ∥ Mem ip ips ⊎ (o ≡ some ip) ∥₁
unfolding insert_found
insert_found→mem none ips ip m = ∣ inl m ∣₁
insert_found→mem (some new) ips ip m = elim (Bool-cases (contains ℕ_discrete ips new)) [
  | inl old ↦ ∣ inl (rw old at m) ∣₁
  | inr fresh ↦
      Or.elim squash₁ (mem-cons.0 (rw fresh at m)) (λ e. ∣ inr (cc e) ∣₁) (λ r. ∣ inl r ∣₁)
]

add_local_ip→mem :
    (line : Text) (rest : List Text) (ips : List ℕ) (ip : ℕ)
    → Mem ip (add_local_ip line rest ips)
    → ∥ Mem ip ips ⊎ IsLocalEntry ip line rest ∥₁
unfolding add_local_ip
add_local_ip→mem line rest ips ip m = elim (Bool-cases (is_entry line && next_is_local rest)) [
  | inl e ↦ ∥∥₁_elim (insert_found→mem (line_ip line) ips ip (rw e at m)) squash₁ (λ c. elim c [
    | inl old ↦ ∣ inl old ∣₁
    | inr new ↦ ∣ inr (record { marked = e; address = new }) ∣₁
  ])
  | inr e ↦ ∣ inl (rw e at m) ∣₁
]

entry→mem :
    (line : Text) (rest : List Text) (ips : List ℕ) (ip : ℕ)
    → IsLocalEntry ip line rest
    → Mem ip (add_local_ip line rest ips)
unfolding add_local_ip insert_found
entry→mem line rest ips ip entry =
    rw (entry.marked, entry.address, insert_found)
      (elim (Bool-cases (contains ℕ_discrete ips ip)) [
        | inl old ↦ rw old ((contains_iff ℕ_discrete ips ip).0 old)
        | inr fresh ↦ rw fresh mem-cons_self
      ])

from→mem :
    (content : List Text) (ips : List ℕ) (ip : ℕ)
    → Mem ip (local_ips_from content ips)
    → ∥ Mem ip ips ⊎ IsListed ip content ∥₁
unfolding local_ips_from
from→mem [] ips ip m = ∣ inl m ∣₁
from→mem (line ∷ rest) ips ip m =
    ∥∥₁_elim (from→mem rest (add_local_ip line rest ips) ip m) squash₁ (λ c. elim c [
      | inl before ↦
          ∥∥₁_elim (add_local_ip→mem line rest ips ip before) squash₁
            (λ c. elim c [ inl old ↦ ∣ inl old ∣₁ | inr entry ↦ ∣ inr (IsListed.here entry) ∣₁ ])
      | inr listed ↦ ∣ inr (IsListed.there listed) ∣₁
    ])

listed→mem :
    (content : List Text) (ips : List ℕ) (ip : ℕ)
    → IsListed ip content
    → Mem ip (local_ips_from content ips)
unfolding local_ips_from
listed→mem [] ips ip listed = elim listed [ ]
listed→mem (line ∷ rest) ips ip (IsListed.here entry) =
    local_ips_from-mem rest (add_local_ip line rest ips) (entry→mem line rest ips ip entry)
listed→mem (line ∷ rest) ips ip (IsListed.there listed) =
    listed→mem rest (add_local_ip line rest ips) ip listed

-- With a trie that can be read, the local addresses are the loopback address and each address of an
-- entry whose next line has the mark of a local address, and no other.
pub resolve_local_ips_iff :
    (content : Text) (ip : ℕ)
    → Mem ip (resolve_local_ips (some content)) ↔ ∥ (ip ≡ loopback) ⊎ IsListed ip (lines content) ∥₁
unfolding resolve_local_ips
resolve_local_ips_iff content ip = (
  (λ m. ∥∥₁_elim (from→mem (lines content) (loopback ∷ []) ip m) squash₁ (λ c. elim c [
    | inl first ↦ Or.elim squash₁ (mem-cons.0 first) (λ e. ∣ inl e ∣₁) (λ r. absurd (not-mem-nil r))
    | inr listed ↦ ∣ inr listed ∣₁
  ])),
  λ t. ∥∥₁_elim t Mem-prop (λ c. elim c [
    | inl e ↦
        subst (λ j. Mem j (local_ips_from (lines content) (loopback ∷ []))) (sym e)
          (local_ips_from-mem (lines content) (loopback ∷ []) mem-cons_self)
    | inr listed ↦ listed→mem (lines content) (loopback ∷ []) ip listed
  ]),
)
