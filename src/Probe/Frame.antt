-- ===== src/Probe/Frame.antt =====
-- An Ethernet frame with an IPv4 packet, written out field by field as the standards lay it out: the
-- reference that orb8-probes/src/network_probe.rs is held against.
use orb.Prelude.{
  ℕ, ◌+◌, ◌*◌, ◌%◌, ◌≡◌, ◌∙◌, List, [], ◌∷◌, ◌++◌, arith, length, length-append, drop, drop-append,
}

pub record Frame : Type 0 where
  -- the two hardware addresses
  pub macs : List ℕ
  -- version and header length, in words of four bytes
  pub version_ihl : ℕ
  -- type of service up to time to live
  pub tos_to_ttl : List ℕ
  pub protocol : ℕ
  pub checksum : List ℕ
  pub src : List ℕ
  pub dst : List ℕ
  pub options : List ℕ
  -- the first two fields of the transport header
  pub src_port_hi : ℕ
  pub src_port_lo : ℕ
  pub dst_port_hi : ℕ
  pub dst_port_lo : ℕ
  pub payload : List ℕ

-- Each part has the length that the standards give it.
pub record IsWellFormed (f : Frame) : Type 0 where
  pub macs : length f.macs ≡ 12
  pub tos_to_ttl : length f.tos_to_ttl ≡ 8
  pub checksum : length f.checksum ≡ 2
  pub src : length f.src ≡ 4
  pub dst : length f.dst ≡ 4
  pub options : 20 + length f.options ≡ f.version_ihl % 16 * 4

-- The parts of the bytes of a frame, each from a field of the frame to its end.
abbrev pub from_ports : Frame → List ℕ
from_ports f = f.src_port_hi ∷ f.src_port_lo ∷ f.dst_port_hi ∷ f.dst_port_lo ∷ f.payload

abbrev pub from_dst : Frame → List ℕ
from_dst f = f.dst ++ (f.options ++ from_ports f)

abbrev pub from_src : Frame → List ℕ
from_src f = f.src ++ from_dst f

abbrev pub from_protocol : Frame → List ℕ
from_protocol f = f.protocol ∷ (f.checksum ++ from_src f)

abbrev pub from_ethertype : Frame → List ℕ
from_ethertype f = 0x08 ∷ 0x00 ∷ f.version_ihl ∷ (f.tos_to_ttl ++ from_protocol f)

abbrev pub frame_bytes : Frame → List ℕ
frame_bytes f = f.macs ++ from_ethertype f

module _ (f : Frame) (w : IsWellFormed f) where
  pub length-frame_bytes :
      length (frame_bytes f) ≡ 14 + f.version_ihl % 16 * 4 + 4 + length f.payload
  length-frame_bytes = omega (
    arith,
    w.macs,
    length-append {0} f.macs (from_ethertype f),
    length-append {0} f.tos_to_ttl (from_protocol f),
    length-append {0} f.checksum (from_src f),
    length-append {0} f.src (from_dst f),
    length-append {0} f.dst (f.options ++ from_ports f),
    length-append {0} f.options (from_ports f),
  )

  pub drop-ethertype : drop 12 (frame_bytes f) ≡ from_ethertype f
  drop-ethertype = drop-append f.macs (from_ethertype f) 12 0 (omega arith)

  pub drop-version_ihl : drop 14 (frame_bytes f) ≡ f.version_ihl ∷ (f.tos_to_ttl ++ from_protocol f)
  drop-version_ihl = drop-append f.macs (from_ethertype f) 14 2 (omega arith)

  pub drop-protocol : drop 23 (frame_bytes f) ≡ from_protocol f
  drop-protocol =
      drop-append f.macs (from_ethertype f) 23 11 (omega arith)
      ∙ drop-append f.tos_to_ttl (from_protocol f) 8 0 (omega arith)

  pub drop-src : drop 26 (frame_bytes f) ≡ from_src f
  drop-src =
      drop-append f.macs (from_ethertype f) 26 14 (omega arith)
      ∙ (drop-append f.tos_to_ttl (from_protocol f) 11 3 (omega arith)
          ∙ drop-append f.checksum (from_src f) 2 0 (omega arith))

  pub drop-dst : drop 30 (frame_bytes f) ≡ from_dst f
  drop-dst =
      drop-append f.macs (from_ethertype f) 30 18 (omega arith)
      ∙ (drop-append f.tos_to_ttl (from_protocol f) 15 7 (omega arith)
          ∙ (drop-append f.checksum (from_src f) 6 4 (omega arith)
              ∙ drop-append f.src (from_dst f) 4 0 (omega arith)))

  -- The options may have any length, so what is behind them is reached part by part.
  pub drop-ports :
      (k j : ℕ)
      → k ≡ 14 + f.version_ihl % 16 * 4 + j
      → drop k (frame_bytes f) ≡ drop j (from_ports f)
  drop-ports k j e =
      let o : ℕ = length f.options in
      drop-append f.macs (from_ethertype f) k (22 + o + j) (omega arith)
      ∙ (drop-append (0x08 ∷ 0x00 ∷ f.version_ihl ∷ []) (f.tos_to_ttl ++ from_protocol f)
            (22 + o + j) (19 + o + j) (omega arith)
          ∙ (drop-append f.tos_to_ttl (from_protocol f) (19 + o + j) (11 + o + j) (omega arith)
              ∙ (drop-append (f.protocol ∷ []) (f.checksum ++ from_src f) (11 + o + j) (10 + o + j)
                    (omega arith)
                  ∙ (drop-append f.checksum (from_src f) (10 + o + j) (8 + o + j) (omega arith)
                      ∙ (drop-append f.src (from_dst f) (8 + o + j) (4 + o + j) (omega arith)
                          ∙ (drop-append f.dst (f.options ++ from_ports f) (4 + o + j) (o + j)
                                (omega arith)
                              ∙ drop-append f.options (from_ports f) (o + j) j (omega arith)))))))
