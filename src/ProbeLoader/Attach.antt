-- ===== src/ProbeLoader/Attach.antt =====
-- orb8-agent/src/probe_loader.rs: attaching the probes.
use orb.Prelude.{Option, none, some, List, [], ◌∷◌, unwrap_or}
use orb.Prelude.Text.{Text, codes}
use orb.Prelude.Results.{Result, ok, error, ◌>>=◌}
use orb.Bpf.{Bpf, AttachType, Program}

-- The errors of `attach_to_interfaces`.
pub data AttachError : Type 0 where
  program_not_found : Text → AttachError
  wrong_program : Text → AttachError
  load_failed : Text → AttachError

module _ (B : Bpf) where
  -- An error of `qdisc_add_clsact` is only logged.
  unfoldable pub add_qdiscs : List Text → B.Object → B.Object
  add_qdiscs [] bpf = bpf
  add_qdiscs (iface ∷ interfaces) bpf =
      add_qdiscs interfaces (unwrap_or (B.add_clsact bpf iface) bpf)

  -- An interface that refuses the program is only logged.
  unfoldable pub attach_each : Text → AttachType → List Text → B.Object → B.Object
  attach_each name attach_type [] bpf = bpf
  attach_each name attach_type (iface ∷ interfaces) bpf = attach_each name attach_type interfaces (
      unwrap_or (B.attach bpf (record { program = name; iface = iface; attach_type = attach_type }))
        bpf)

  abbrev pub find : Text → Program → Result AttachError Unit
  find name Program.absent = error (program_not_found name)
  find name Program.other_kind = error (wrong_program name)
  find name Program.classifier = ok tt

  abbrev pub loaded : Text → Option B.Object → Result AttachError B.Object
  loaded name none = error (load_failed name)
  loaded name (some bpf) = ok bpf

  -- One of the two blocks of `attach_to_interfaces`.
  unfoldable pub attach_probe :
      Text → AttachType → List Text → B.Object → Result AttachError B.Object
  attach_probe name attach_type interfaces bpf = do
    _ ← find name (B.find_program bpf name)
    bpf' ← loaded name (B.load bpf name)
    ok (attach_each name attach_type interfaces bpf')

  unfoldable pub attach_to_interfaces : List Text → B.Object → Result AttachError B.Object
  attach_to_interfaces interfaces bpf = do
    bpf' ←
        attach_probe (codes "network_probe") AttachType.ingress interfaces
          (add_qdiscs interfaces bpf)
    attach_probe (codes "network_probe_egress") AttachType.egress interfaces bpf'

  unfoldable pub attach_to_loopback : B.Object → Result AttachError B.Object
  attach_to_loopback = attach_to_interfaces (codes "lo" ∷ [])
