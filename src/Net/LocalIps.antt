-- ===== src/Net/LocalIps.antt =====
-- orb8-agent/src/net.rs: the addresses that `resolve_local_ips` returns.
use orb.Prelude.{
  ℕ, ◌≢◌, List, [], ◌∷◌, Option, none, some, Mem, mem-cons_self, mem-cons_of_mem, not-mem-nil,
  subst, ◌&&◌, Bool-cases, inl, inr, contains, ℕ_discrete,
}
use orb.Prelude.Text.{Text, lines}
use orb.Net.{
  loopback, add_local_ip, local_ips_from, resolve_local_ips, line_ip, is_entry, next_is_local,
  insert_found,
}

insert_found-mem :
    (found : Option ℕ) (ips : List ℕ) {ip : ℕ} → Mem ip ips → Mem ip (insert_found found ips)
unfolding insert_found
insert_found-mem none ips m = m
insert_found-mem (some new) ips m = elim (Bool-cases (contains ℕ_discrete ips new)) [
  | inl old ↦ rw old m
  | inr fresh ↦ rw fresh (mem-cons_of_mem new m)
]

pub add_local_ip-mem :
    (line : Text) (rest : List Text) (ips : List ℕ) {ip : ℕ}
    → Mem ip ips
    → Mem ip (add_local_ip line rest ips)
unfolding add_local_ip
add_local_ip-mem line rest ips {ip} m = elim (Bool-cases (is_entry line && next_is_local rest)) [
  | inl e ↦ rw e (insert_found-mem (line_ip line) ips m)
  | inr e ↦ rw e m
]

pub local_ips_from-mem :
    (content : List Text) (ips : List ℕ) {ip : ℕ} → Mem ip ips → Mem ip (local_ips_from content ips)
unfolding local_ips_from
local_ips_from-mem [] ips m = m
local_ips_from-mem (line ∷ rest) ips m =
    local_ips_from-mem rest (add_local_ip line rest ips) (add_local_ip-mem line rest ips m)

-- The loopback address is always among them.
pub resolve_local_ips-loopback : (content : Option Text) → Mem loopback (resolve_local_ips content)
unfolding resolve_local_ips
resolve_local_ips-loopback none = mem-cons_self
resolve_local_ips-loopback (some content) =
    local_ips_from-mem (lines content) (loopback ∷ []) mem-cons_self

-- So the set of local addresses is never empty, also where the trie cannot be read.
pub resolve_local_ips-ne-nil : (content : Option Text) → resolve_local_ips content ≢ []
resolve_local_ips-ne-nil content e =
    not-mem-nil {a = loopback} (subst (Mem loopback) e (resolve_local_ips-loopback content))
