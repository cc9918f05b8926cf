-- ===== src/Net/Rendered.antt =====
-- orb8-agent/src/net.rs on the routing trie as Linux prints it, whose leaves are written out line by
-- line.
use orb.Prelude.{ℕ, suc, ◌^◌, ◌<◌, ◌≡◌, Bool, true, false, List, [], ◌∷◌, ◌++◌, All, ltb, ◌&&◌}
use orb.Prelude.Text.{Text, codes}
use orb.Net.{format_ipv4}
use orb.Net.Lines.{spaces}

-- A leaf of the trie: an address, at some depth, and whether it is one of the host's own.
pub record Leaf : Type 0 where
  pub depth : ℕ
  pub ip : ℕ
  pub is_local : Bool

abbrev mark : Bool → Text
mark true = codes "/32 host LOCAL"
mark false = codes "/32 link BROADCAST"

abbrev address_line : Leaf → Text
address_line l = spaces l.depth ++ (codes "|-- " ++ format_ipv4 l.ip)

abbrev mark_line : Leaf → Text
mark_line l = spaces (suc (suc (suc l.depth))) ++ mark l.is_local

-- The leaves as /proc/net/fib_trie shows them: an address on a line, and its mark on the next.
abbrev pub render : List Leaf → Text
render [] = []
render (l ∷ ls) = address_line l ++ 10 ∷ (mark_line l ++ 10 ∷ render ls)

abbrev all_above : Text → Bool
all_above [] = true
all_above (c ∷ s) = ltb 31 c && all_above s

-- One of the leaves is the address, and the host's own.
pub data HasLocal (ip : ℕ) : List Leaf → Type 0 where
  here : {l : Leaf} {ls : List Leaf} → l.is_local ≡ true → l.ip ≡ ip → HasLocal ip (l ∷ ls)
  there : {l : Leaf} {ls : List Leaf} → HasLocal ip ls → HasLocal ip (l ∷ ls)

abbrev pub AreAddresses : List Leaf → Type 0
AreAddresses = All (λ l. l.ip < 2 ^ 32)
