-- ===== src/ProbeLoader/Manager.antt =====
-- orb8-agent/src/probe_loader.rs: the steps of `ProbeManager` around the attachment: the checks before
-- the object is loaded, the ring of events, and the reader of the drop counter.
use orb.Prelude.{Bool, true, false, Option, none, some, if◌then◌else◌}
use orb.Prelude.Text.{Text}
use orb.Prelude.Results.{Result, ok, error, ◌>>=◌}
use orb.ProbeLoader.{KernelError, KernelCheck, supported, rejected, check_kernel_version}
use orb.Ring.{RingBuf}

-- What the checks read of the host.
pub record Preflight : Type 0 where
  pub uname : Option Text
  pub btf_exists : Bool
  pub euid_is_root : Bool

-- The check of the kernel can fail; those of BTF and of the capabilities only log.
abbrev pub of_check : KernelCheck → Result KernelError Unit
of_check supported = ok tt
of_check (rejected e) = error e

abbrev pub check_btf : Bool → Result KernelError Unit
check_btf btf_exists = if btf_exists then ok tt else ok tt

abbrev pub check_capabilities : Bool → Result KernelError Unit
check_capabilities euid_is_root = if euid_is_root then ok tt else ok tt

unfoldable pub run_preflight_checks : Preflight → Result KernelError Unit
run_preflight_checks p = do
  _ ← of_check (check_kernel_version p.uname)
  _ ← check_btf p.btf_exists
  check_capabilities p.euid_is_root

pub data NewError : Type 0 where
  preflight : KernelError → NewError
  not_loaded : NewError

-- `?` on an error of another type
abbrev pub or_error : {E F A : Type 0} → (E → F) → Result E A → Result F A
or_error wrap (ok a) = ok a
or_error wrap (error e) = error (wrap e)

abbrev pub load_network_probe : {A : Type 0} → Option A → Result NewError A
load_network_probe none = error NewError.not_loaded
load_network_probe (some bpf) = ok bpf

-- `ProbeManager::new`, with what the loading of the object gives.
unfoldable pub new : {A : Type 0} → Preflight → Option A → Result NewError A
new p object = do
  _ ← or_error NewError.preflight (run_preflight_checks p)
  load_network_probe object

-- What the object has under the name EVENTS.
pub data EventsMap (R : RingBuf) : Type 0 where
  absent other_kind : EventsMap R
  ring_buf : R.Ring → EventsMap R

pub data RingError : Type 0 where
  map_not_found not_a_ring : RingError

unfoldable pub events_ring_buf : (R : RingBuf) → EventsMap R → Result RingError R.Ring
events_ring_buf R EventsMap.absent = error RingError.map_not_found
events_ring_buf R EventsMap.other_kind = error RingError.not_a_ring
events_ring_buf R (EventsMap.ring_buf ring) = ok ring

-- The answers of the calls of `events_dropped_reader`: whether the map is there, whether it could be
-- pinned, opened again from the pin and taken as an array, and whether the pin could be removed.
pub record PinCalls : Type 0 where
  pub found : Bool
  pub pinned : Bool
  pub opened : Bool
  pub is_array : Bool
  pub removed : Bool

-- Whether there is a reader, and whether the pin is left; `left` says whether one was there before.
unfoldable pub events_dropped_reader : PinCalls → Bool → Bool × Bool
events_dropped_reader c left =
    if c.found
    then (if c.pinned
        then (if c.opened then c.is_array else false, if c.removed then false else true)
        else (false, left))
    else (false, left)
