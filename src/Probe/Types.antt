-- ===== src/Probe/Types.antt =====
-- orb8-probes/src/network_probe.rs: what the probe reads of any packet fits the types of the event.
use orb.Prelude.{
  ℕ, ◌+◌, ◌*◌, ◌%◌, ◌≤◌, ◌<◌, ◌≡◌, ◌^◌, refl, Bool, false, true, ◌||◌, Option, none, some, ◌>>=◌,
  List, [], ◌∷◌, arith, take, drop, All, All-drop, if◌then◌else◌, ltb, ◌==◌, subst,
}
use orb.Common.{tcp, udp, egress}
use orb.Common.Bytes.{IsByte, from_le_bytes-take-lt}
use orb.Common.Layout.{FitsTypes}
use orb.Probe.{
  TcContext, Headers, data_end, from_be_bytes, ptr_at, read_u8, read_be16, read_u32, read_ports,
  read_ip, read_headers, event_of, eth_hlen, ip_hlen_min, eth_p_ip,
}

-- A property of a result that may be missing.
abbrev Holds : {A : Type 0} → (A → Type 0) → Option A → Type 0
Holds P none = Unit
Holds P (some a) = P a

bind-Holds :
    {A B : Type 0} (Q : A → Type 0) (P : B → Type 0) (o : Option A) (f : A → Option B)
    → Holds Q o
    → ((a : A) → Q a → Holds P (f a))
    → Holds P (o >>= f)
bind-Holds Q P none f h k = tt
bind-Holds Q P (some a) f h k = k a h

if-Holds :
    {A : Type 0} (P : A → Type 0) (b : Bool) (x y : Option A)
    → Holds P x
    → Holds P y
    → Holds P (if b then x else y)
if-Holds P true x y hx hy = hx
if-Holds P false x y hx hy = hy

from_be_bytes-take-lt : (bs : List ℕ) → All IsByte bs → from_be_bytes (take 2 bs) < 256 ^ 2
from_be_bytes-take-lt [] small = omega arith
from_be_bytes-take-lt (hi ∷ []) (h, small) = omega arith
from_be_bytes-take-lt (hi ∷ lo ∷ bs) (h, (l, small)) = omega arith

-- The headers fit the types of the fields that they are written to.
pub record HeadersFit (h : Headers) : Type 0 where
  pub src_ip : h.src_ip < 256 ^ 4
  pub dst_ip : h.dst_ip < 256 ^ 4
  pub src_port : h.src_port < 256 ^ 2
  pub dst_port : h.dst_port < 256 ^ 2
  pub protocol : h.protocol < 256 ^ 1

module _ (ctx : TcContext) (small : All IsByte ctx.bytes) where
  abbrev IsPart : ℕ → List ℕ → Type 0
  IsPart len bs = (offset : ℕ) × (bs ≡ take len (drop offset ctx.bytes))

  ptr_at-IsPart : (offset len : ℕ) → Holds (IsPart len) (ptr_at ctx offset len)
  unfolding ptr_at
  ptr_at-IsPart offset len =
      if-Holds (IsPart len) (ltb (data_end ctx) (ctx.data_start + offset + len)) none _ tt
        (offset, refl)

  read_u8-lt : (offset : ℕ) → Holds (λ n. n < 256 ^ 1) (read_u8 ctx offset)
  unfolding read_u8
  read_u8-lt offset =
      bind-Holds (IsPart 1) (λ n. n < 256 ^ 1) (ptr_at ctx offset 1) _ (ptr_at-IsPart offset 1)
        (λ bs (o, e).
          rw e (from_le_bytes-take-lt 1 (drop o ctx.bytes) (All-drop IsByte o ctx.bytes small)))

  read_u32-lt : (offset : ℕ) → Holds (λ n. n < 256 ^ 4) (read_u32 ctx offset)
  unfolding read_u32
  read_u32-lt offset =
      bind-Holds (IsPart 4) (λ n. n < 256 ^ 4) (ptr_at ctx offset 4) _ (ptr_at-IsPart offset 4)
        (λ bs (o, e).
          rw e (from_le_bytes-take-lt 4 (drop o ctx.bytes) (All-drop IsByte o ctx.bytes small)))

  read_be16-lt : (offset : ℕ) → Holds (λ n. n < 256 ^ 2) (read_be16 ctx offset)
  unfolding read_be16
  read_be16-lt offset =
      bind-Holds (IsPart 2) (λ n. n < 256 ^ 2) (ptr_at ctx offset 2) _ (ptr_at-IsPart offset 2)
        (λ bs (o, e).
          rw e (from_be_bytes-take-lt (drop o ctx.bytes) (All-drop IsByte o ctx.bytes small)))

  abbrev PortsFit : ℕ × ℕ → Type 0
  PortsFit ports = (ports.0 < 256 ^ 2) × (ports.1 < 256 ^ 2)

  read_ports-fit : (proto offset : ℕ) → Holds PortsFit (read_ports ctx proto offset)
  unfolding read_ports
  read_ports-fit proto offset =
      if-Holds PortsFit (proto == tcp || proto == udp) _ _
        (bind-Holds (λ n. n < 256 ^ 2) PortsFit (read_be16 ctx offset) _ (read_be16-lt offset)
          (λ sport s.
            bind-Holds (λ n. n < 256 ^ 2) PortsFit (read_be16 ctx (offset + 2)) _
              (read_be16-lt (offset + 2)) (λ dport d. (s, d))))
        (omega arith, omega arith)

  read_ip-HeadersFit : (version_ihl : ℕ) → Holds (Holds HeadersFit) (read_ip ctx version_ihl)
  unfolding read_ip
  read_ip-HeadersFit version_ihl =
      if-Holds (Holds HeadersFit) (ltb (version_ihl % 16 * 4) ip_hlen_min) _ _ tt (
        bind-Holds (λ n. n < 256 ^ 1) (Holds HeadersFit) (read_u8 ctx (eth_hlen + 9)) _
          (read_u8-lt (eth_hlen + 9))
          (λ proto p.
            bind-Holds (λ n. n < 256 ^ 4) (Holds HeadersFit) (read_u32 ctx (eth_hlen + 12)) _
              (read_u32-lt (eth_hlen + 12))
              (λ src s.
                bind-Holds (λ n. n < 256 ^ 4) (Holds HeadersFit) (read_u32 ctx (eth_hlen + 16)) _
                  (read_u32-lt (eth_hlen + 16))
                  (λ dst d.
                    bind-Holds PortsFit (Holds HeadersFit)
                      (read_ports ctx proto (eth_hlen + version_ihl % 16 * 4)) _
                      (read_ports-fit proto (eth_hlen + version_ihl % 16 * 4))
                      (λ ports fit. record {
                        src_ip = s;
                        dst_ip = d;
                        src_port = fit.0;
                        dst_port = fit.1;
                        protocol = p;
                      })))))

  read_headers-HeadersFit : Holds (Holds HeadersFit) (read_headers ctx)
  unfolding read_headers
  read_headers-HeadersFit =
      if-Holds (Holds HeadersFit) (ltb ctx.len (eth_hlen + ip_hlen_min)) _ _ tt (
        bind-Holds (λ n. Unit) (Holds HeadersFit) (read_be16 ctx 12) _ (trivial (read_be16 ctx 12))
          (λ ethertype u.
            if-Holds (Holds HeadersFit) (ethertype == eth_p_ip) _ _
              (bind-Holds (λ n. Unit) (Holds HeadersFit) (read_u8 ctx eth_hlen) _
                (trivial (read_u8 ctx eth_hlen)) (λ version_ihl v. read_ip-HeadersFit version_ihl))
              tt))
    where
      trivial : (o : Option ℕ) → Holds (λ n. Unit) o
      trivial none = tt
      trivial (some n) = tt

  -- Whatever bytes a packet holds: where the probe reads headers of it, each field of the event that
  -- it writes fits its type, the length included, which is cut to 16 bits. The time has to fit 64
  -- bits, and the direction is one of the two.
  pub event_of-FitsTypes :
      (timestamp_ns dir : ℕ) (h : Headers)
      → timestamp_ns < 2 ^ 64
      → dir ≤ egress
      → read_headers ctx ≡ some (some h)
      → FitsTypes (event_of timestamp_ns dir ctx h)
  event_of-FitsTypes timestamp_ns dir h time side e =
      let fit : HeadersFit h = subst (Holds (Holds HeadersFit)) e read_headers-HeadersFit in
      record {
        timestamp_ns = omega arith;
        cgroup_id = omega arith;
        src_ip = fit.src_ip;
        dst_ip = fit.dst_ip;
        src_port = fit.src_port;
        dst_port = fit.dst_port;
        protocol = fit.protocol;
        direction = omega arith;
        packet_len = omega arith;
      }
