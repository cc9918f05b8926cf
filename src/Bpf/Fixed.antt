-- ===== src/Bpf/Fixed.antt =====
-- An object that attaches to some interfaces and refuses the others meets the interface.
use orb.Prelude.{◌≡◌, Option, none, some, List, [], ◌∷◌, ◌++◌, if◌then◌else◌, contains, arith}
use orb.Prelude.Text.{Text, Text-discrete}
use orb.Bpf.{Bpf, Attachment, Program}

-- The programs of the object, and the interfaces to which they can be attached.
module _ (programs interfaces : List Text) where
  unfoldable pub attach_fixed : List Attachment → Attachment → Option (List Attachment)
  attach_fixed attached a =
      if contains Text-discrete interfaces a.iface then some (attached ++ a ∷ []) else none

  pub attach_fixed-some :
      (attached attached' : List Attachment) (a : Attachment)
      → attach_fixed attached a ≡ some attached'
      → attached' ≡ attached ++ a ∷ []
  unfolding attach_fixed
  attach_fixed-some attached attached' a e = ground arith

  unfoldable pub fixed : Bpf
  unfolding attach_fixed
  fixed = record {
    Object = List Attachment;
    find_program = λ attached name.
        if contains Text-discrete programs name then Program.classifier else Program.absent;
    add_clsact = λ attached iface. none;
    load = λ attached name. some attached;
    attach = attach_fixed;
    attached = λ attached. attached;
    attached-add_clsact = λ o o' iface e. cc;
    attached-load = λ o o' name e. cc;
    attached-attach = attach_fixed-some;
  }
