-- ===== src/Bpf.antt =====
-- The eBPF object that orb8-agent/src/probe_loader.rs loads, and what the kernel attaches of it. The
-- crate `aya` and the kernel are not part of the repository: `Bpf` lists the calls that the loader
-- makes, and what is documented of them. `Bpf/Fixed.antt` shows that an object whose answers are
-- fixed meets it.
pub mod Fixed
use orb.Prelude.{◌≡◌, Option, some, List, [], ◌∷◌, ◌++◌}
use orb.Prelude.Text.{Text}

-- `TcAttachType`
pub data AttachType : Type 0 where
  ingress egress : AttachType

-- What `program_mut(name)` and the conversion to `SchedClassifier` find.
pub data Program : Type 0 where
  absent other_kind classifier : Program

-- A classifier on an interface.
pub record Attachment : Type 0 where
  pub program : Text
  pub iface : Text
  pub attach_type : AttachType

pub record Bpf : Type 1 where
  pub Object : Type 0
  pub find_program : Object → Text → Program
  -- `none` is an error, which leaves the object as it was
  pub add_clsact : Object → Text → Option Object
  pub load : Object → Text → Option Object
  pub attach : Object → Attachment → Option Object
  -- what is attached, oldest first
  pub attached : Object → List Attachment
  pub attached-add_clsact :
      (o o' : Object) (iface : Text) → add_clsact o iface ≡ some o' → attached o' ≡ attached o
  pub attached-load :
      (o o' : Object) (name : Text) → load o name ≡ some o' → attached o' ≡ attached o
  pub attached-attach :
      (o o' : Object) (a : Attachment) → attach o a ≡ some o' → attached o' ≡ attached o ++ a ∷ []
