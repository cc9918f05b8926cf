-- ===== src/ProbeLoader/Coverage.antt =====
-- orb8-agent/src/probe_loader.rs: which interfaces the probes are attached to in the end.
use orb.Prelude.{
  ◌≡◌, refl, sym, ap, subst, All-imp, ◌∙◌, inl, inr, true, Option, none, some, List, [], ◌∷◌, ◌++◌,
  map, append-nil, append_assoc, Mem, mem-cons, mem-cons_of_mem, mem-cons_self, not-mem-nil,
  Mem-prop, All, Option-cases, is_some, arith,
}
use orb.Prelude.Text.{Text, codes}
use orb.Prelude.Results.{ok, ok-inj, error-ne-ok, bind-ok}
use orb.Bpf.{Bpf, AttachType, Attachment}
use orb.ProbeLoader.Attach.{
  AttachError, add_qdiscs, attach_each, find, loaded, attach_probe, attach_to_interfaces,
}
use mathlib.Core.Logic.Or

abbrev pub attachment : Text → AttachType → Text → Attachment
attachment name attach_type iface = record {
  program = name;
  iface = iface;
  attach_type = attach_type;
}

module _ (B : Bpf) where
  -- The kernel attaches the classifier to the interface, whatever is attached already.
  abbrev pub Accepts : Text → AttachType → Text → Type 0
  Accepts name attach_type iface =
      (bpf : B.Object) → is_some (B.attach bpf (attachment name attach_type iface)) ≡ true

  -- Some of the interfaces, and among them each that accepts the classifier.
  pub record IsChoice (name : Text) (attach_type : AttachType) (interfaces chosen : List Text)
      : Type 0 where
    pub discovered : All (λ iface. Mem iface interfaces) chosen
    pub accepting :
        (iface : Text) → Mem iface interfaces → Accepts name attach_type iface → Mem iface chosen

  add_qdiscs-attached :
      (interfaces : List Text) (bpf : B.Object)
      → B.attached (add_qdiscs B interfaces bpf) ≡ B.attached bpf
  unfolding add_qdiscs
  add_qdiscs-attached [] bpf = refl
  add_qdiscs-attached (iface ∷ interfaces) bpf = elim (Option-cases (B.add_clsact bpf iface)) [
    | inl refused ↦ rw refused (add_qdiscs-attached interfaces bpf)
    | inr (bpf', added) ↦
        rw added (add_qdiscs-attached interfaces bpf' ∙ B.attached-add_clsact bpf bpf' iface added)
  ]

  refuses_one :
      (name : Text) (attach_type : AttachType) (iface : Text) (interfaces chosen : List Text)
      (bpf : B.Object)
      → B.attach bpf (attachment name attach_type iface) ≡ none
      → IsChoice name attach_type interfaces chosen
      → IsChoice name attach_type (iface ∷ interfaces) chosen
  refuses_one name attach_type iface interfaces chosen bpf refused choice = record {
    discovered = All-imp chosen (λ i m. mem-cons_of_mem iface m) choice.discovered;
    accepting = λ i m accepts.
        Or.elim Mem-prop (mem-cons.0 m)
          (λ e. absurd (
            let answer : is_some (B.attach bpf (attachment name attach_type iface)) ≡ true =
              subst (λ j. is_some (B.attach bpf (attachment name attach_type j)) ≡ true) e
                (accepts bpf) in
            ground (arith, refused)))
          (λ rest. choice.accepting i rest accepts);
  }

  takes_one :
      (name : Text) (attach_type : AttachType) (iface : Text) (interfaces chosen : List Text)
      → IsChoice name attach_type interfaces chosen
      → IsChoice name attach_type (iface ∷ interfaces) (iface ∷ chosen)
  takes_one name attach_type iface interfaces chosen choice = record {
    discovered = (mem-cons_self, All-imp chosen (λ i m. mem-cons_of_mem iface m) choice.discovered);
    accepting = λ i m accepts.
        Or.elim Mem-prop (mem-cons.0 m) (λ e. mem-cons.1 (Or.inl e))
          (λ rest. mem-cons_of_mem iface (choice.accepting i rest accepts));
  }

  attach_each_lem :
      (name : Text) (attach_type : AttachType) (interfaces : List Text) (bpf : B.Object)
      → (chosen : List Text) × IsChoice name attach_type interfaces chosen
        × (B.attached (attach_each B name attach_type interfaces bpf)
            ≡ B.attached bpf ++ map (attachment name attach_type) chosen)
  unfolding attach_each
  attach_each_lem name attach_type [] bpf = (
    [],
    record { discovered = tt; accepting = λ i m accepts. absurd (not-mem-nil m) },
    sym (append-nil (B.attached bpf)),
  )
  attach_each_lem name attach_type (iface ∷ interfaces) bpf =
      elim (Option-cases (B.attach bpf (attachment name attach_type iface))) [
        | inl refused ↦
            let (chosen, choice, attached_eq) = attach_each_lem name attach_type interfaces bpf in
            rw refused (
              chosen,
              refuses_one name attach_type iface interfaces chosen bpf refused choice,
              attached_eq,
            )
        | inr (bpf', taken) ↦
            let (chosen, choice, attached_eq) = attach_each_lem name attach_type interfaces bpf' in
            rw taken (
              iface ∷ chosen,
              takes_one name attach_type iface interfaces chosen choice,
              attached_eq
                  ∙ (ap (λ xs. xs ++ map (attachment name attach_type) chosen)
                        (B.attached-attach bpf bpf' (attachment name attach_type iface) taken)
                      ∙ append_assoc (B.attached bpf) (attachment name attach_type iface ∷ [])
                          (map (attachment name attach_type) chosen)),
            )
      ]

  loaded-some :
      (name : Text) (o : Option B.Object) (bpf : B.Object) → loaded B name o ≡ ok bpf → o ≡ some bpf
  loaded-some name none bpf e = absurd (error-ne-ok (AttachError.load_failed name) bpf e)
  loaded-some name (some bpf') bpf e = ap some (ok-inj bpf' bpf e)

  attach_probe_lem :
      (name : Text) (attach_type : AttachType) (interfaces : List Text) (bpf bpf' : B.Object)
      → attach_probe B name attach_type interfaces bpf ≡ ok bpf'
      → (chosen : List Text) × IsChoice name attach_type interfaces chosen
        × (B.attached bpf' ≡ B.attached bpf ++ map (attachment name attach_type) chosen)
  unfolding attach_probe
  attach_probe_lem name attach_type interfaces bpf bpf' e =
      let (found, found_eq, rest) = bind-ok (find B name (B.find_program bpf name)) _ bpf' e in
      let (ready, ready_eq, done) = bind-ok (loaded B name (B.load bpf name)) _ bpf' rest in
      let (chosen, choice, attached_eq) = attach_each_lem name attach_type interfaces ready in
      (
        chosen,
        choice,
        ap B.attached (sym (ok-inj _ bpf' done))
            ∙ (attached_eq
                ∙ ap (λ xs. xs ++ map (attachment name attach_type) chosen)
                    (B.attached-load bpf ready name
                      (loaded-some name (B.load bpf name) ready ready_eq))),
      )

  -- Where the call succeeds, what is attached behind it is what was attached before, then the first
  -- classifier on incoming packets, then the second on outgoing packets, each of them on some of the
  -- given interfaces, and on every one that accepts it, whatever the other interfaces refuse.
  pub attach_to_interfaces_lem :
      (interfaces : List Text) (bpf bpf' : B.Object)
      → attach_to_interfaces B interfaces bpf ≡ ok bpf'
      → (ins outs : List Text) × IsChoice (codes "network_probe") AttachType.ingress interfaces ins
        × IsChoice (codes "network_probe_egress") AttachType.egress interfaces outs
        × (B.attached bpf'
            ≡ B.attached bpf
              ++ map (attachment (codes "network_probe") AttachType.ingress) ins
              ++ map (attachment (codes "network_probe_egress") AttachType.egress) outs)
  unfolding attach_to_interfaces
  attach_to_interfaces_lem interfaces bpf bpf' e =
      let with_qdiscs = add_qdiscs B interfaces bpf in
      let (between, first, second) =
        bind-ok (attach_probe B (codes "network_probe") AttachType.ingress interfaces with_qdiscs) _
          bpf' e in
      let (ins, ins_choice, ins_eq) =
        attach_probe_lem (codes "network_probe") AttachType.ingress interfaces with_qdiscs between
          first in
      let (outs, outs_choice, outs_eq) =
        attach_probe_lem (codes "network_probe_egress") AttachType.egress interfaces between bpf'
          second in
      let incoming = map (attachment (codes "network_probe") AttachType.ingress) ins in
      let outgoing = map (attachment (codes "network_probe_egress") AttachType.egress) outs in
      (
        ins,
        outs,
        ins_choice,
        outs_choice,
        outs_eq
            ∙ ap (λ xs. xs ++ outgoing)
                (ins_eq ∙ ap (λ xs. xs ++ incoming) (add_qdiscs-attached interfaces bpf)),
      )
