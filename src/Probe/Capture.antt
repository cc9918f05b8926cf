-- ===== src/Probe/Capture.antt =====
-- orb8-probes/src/network_probe.rs: what the probe reads of a well-formed frame.
use orb.Prelude.{
  ℕ, ◌+◌, ◌*◌, ◌%◌, ◌≤◌, ◌≡◌, refl, ap, ◌∙◌, false, ◌||◌, some, List, ◌∷◌, ◌++◌, arith, length,
  take, drop, take-append, if◌then◌else◌, ltb, ◌==◌, Bool-cases, inl, inr,
}
use orb.Common.{tcp, udp}
use orb.Common.Layout.{from_le_bytes}
use orb.Probe.{
  TcContext, Headers, ptr_at, read_u8, read_be16, read_u32, read_ports, read_ip, read_headers,
}
use orb.Probe.Frame.{
  Frame, IsWellFormed, frame_bytes, from_ethertype, from_protocol, from_src, from_dst, from_ports,
  length-frame_bytes, drop-ethertype, drop-version_ihl, drop-protocol, drop-src, drop-dst,
  drop-ports,
}

-- The ports of TCP and UDP, most significant byte first; other protocols have none.
abbrev pub ports_of : Frame → ℕ × ℕ
ports_of f =
    if f.protocol == tcp || f.protocol == udp
    then (256 * f.src_port_hi + f.src_port_lo, 256 * f.dst_port_hi + f.dst_port_lo)
    else (0, 0)

-- What a capture of the frame should hold.
abbrev pub headers_of : Frame → Headers
headers_of f = record {
  src_ip = from_le_bytes f.src;
  dst_ip = from_le_bytes f.dst;
  src_port = (ports_of f).0;
  dst_port = (ports_of f).1;
  protocol = f.protocol;
}

ptr_at_inside :
    (ctx : TcContext) (offset len : ℕ)
    → offset + len ≤ length ctx.bytes
    → ptr_at ctx offset len ≡ some (take len (drop offset ctx.bytes))
unfolding ptr_at
ptr_at_inside ctx offset len inside = ground arith

module _ (f : Frame) (w : IsWellFormed f) (ctx : TcContext)
    (whole : ctx.bytes ≡ frame_bytes f) where
  -- A read of `len` bytes at `offset`, where the frame has `part` there.
  ptr_at_part :
      (offset len : ℕ) (part : List ℕ)
      → offset + len ≤ length (frame_bytes f)
      → drop offset (frame_bytes f) ≡ part
      → ptr_at ctx offset len ≡ some (take len part)
  ptr_at_part offset len part inside at =
      ptr_at_inside ctx offset len (rw whole inside)
      ∙ ap some (ap (λ b. take len (drop offset b)) whole ∙ ap (take len) at)

  ethertype : read_be16 ctx 12 ≡ some 0x0800
  unfolding read_be16
  ethertype = rw (
      ptr_at_part 12 2 (from_ethertype f) (omega (arith, length-frame_bytes f w))
        (drop-ethertype f w))

  version_ihl : read_u8 ctx 14 ≡ some f.version_ihl
  unfolding read_u8 from_le_bytes
  version_ihl =
      rw
        (ptr_at_part 14 1 (f.version_ihl ∷ (f.tos_to_ttl ++ from_protocol f))
          (omega (arith, length-frame_bytes f w)) (drop-version_ihl f w))
        (ap some (omega arith))

  protocol : read_u8 ctx 23 ≡ some f.protocol
  unfolding read_u8 from_le_bytes
  protocol =
      rw
        (ptr_at_part 23 1 (from_protocol f) (omega (arith, length-frame_bytes f w, w.options))
          (drop-protocol f w))
        (ap some (omega arith))

  src_ip : read_u32 ctx 26 ≡ some (from_le_bytes f.src)
  unfolding read_u32
  src_ip =
      rw
        (ptr_at_part 26 4 (from_src f) (omega (arith, length-frame_bytes f w, w.options))
          (drop-src f w))
        (ap (λ b. some (from_le_bytes b)) (take-append f.src (from_dst f) 4 (omega (arith, w.src))))

  dst_ip : read_u32 ctx 30 ≡ some (from_le_bytes f.dst)
  unfolding read_u32
  dst_ip =
      rw
        (ptr_at_part 30 4 (from_dst f) (omega (arith, length-frame_bytes f w, w.options))
          (drop-dst f w))
        (ap (λ b. some (from_le_bytes b))
          (take-append f.dst (f.options ++ from_ports f) 4 (omega (arith, w.dst))))

  port :
      (k j : ℕ)
      → k ≡ 14 + f.version_ihl % 16 * 4 + j
      → j ≤ 2
      → ptr_at ctx k 2 ≡ some (take 2 (drop j (from_ports f)))
  port k j e h =
      ptr_at_part k 2 (drop j (from_ports f)) (omega (arith, length-frame_bytes f w))
        (drop-ports f w k j e)

  ports : read_ports ctx f.protocol (14 + f.version_ihl % 16 * 4) ≡ some (ports_of f)
  unfolding read_ports read_be16
  ports = elim (Bool-cases (f.protocol == tcp || f.protocol == udp)) [
    | inl has ↦ rw (
      has,
      port (14 + f.version_ihl % 16 * 4) 0 (omega arith) (omega arith),
      port (14 + f.version_ihl % 16 * 4 + 2) 2 refl (omega arith),
    )
    | inr lacks ↦ rw lacks
  ]

  -- The probe reads back exactly what a well-formed frame was written with: the addresses, with
  -- their first octet lowest, the protocol, and the ports of TCP and UDP, behind options of any
  -- length. It does not matter at which address the frame lies, nor what follows the ports. The
  -- packet's bytes are those of the whole frame, and its length is not below their number.
  pub read_headers_frame :
      length ctx.bytes ≤ ctx.len → read_headers ctx ≡ some (some (headers_of f))
  unfolding read_headers read_ip
  read_headers_frame long =
      let enough : ltb ctx.len 34 ≡ false =
        ground (arith, length-frame_bytes f w, w.options, ap (λ (b : List ℕ). length b) whole) in
      let header : ltb (f.version_ihl % 16 * 4) 20 ≡ false = ground (arith, w.options) in
      rw (enough, ethertype, version_ihl, header, protocol, src_ip, dst_ip, ports)
