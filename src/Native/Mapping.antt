-- ===== src/Native/Mapping.antt =====
-- native/mapping.go: the table of the services' ports. The file, its parser and the watcher are outside: what
-- they answer is an argument.
pub mod Laws
use jopa.Common.{
  ℕ, suc, ◌+◌, ◌%◌, String, Bool, Option, none, some, List, [], ◌∷◌, length, get_elem?,
}
use jopa.Common.Dict.{Dict, lookup, insert, delete}
use jopa.Common.Outcome.{Outcome, ok, err, panic}

pub data Failure : Type 0 where
  empty_ports no_service no_ports save_failed load_failed watcher_failed : Failure

-- `portsInfo`
pub record PortsInfo : Type 0 where
  pub ports : List ℕ
  pub offset : ℕ

-- The result of reading past the end of a slice is a panic.
next_port : PortsInfo → Option ℕ → Outcome Failure (PortsInfo × ℕ)
next_port i none = panic
next_port i (some port) = ok (record i { offset = (i.offset + 1) % length i.ports }, port)

-- The test for an empty list of ports comes first.
next_of : PortsInfo → List ℕ → Outcome Failure (PortsInfo × ℕ)
unfolding next_port
next_of i [] = err empty_ports
next_of i (_ ∷ _) = next_port i (get_elem? i.ports i.offset)

-- `portsInfo.Next`
unfoldable pub next : PortsInfo → Outcome Failure (PortsInfo × ℕ)
unfolding next_of
next i = next_of i i.ports

-- `ServiceMapping`
pub record ServiceMapping : Type 0 where
  pub services : Dict PortsInfo
  pub error : Option Failure

unfoldable pub save_error : Option Failure → Outcome Failure (Unit {0})
save_error none = ok tt
save_error (some e) = err e

-- `SetServicePorts`; `saved` is the error of `save`.
unfoldable pub set_service_ports :
    Option Failure → String → List ℕ → ServiceMapping → ServiceMapping × Outcome Failure (Unit {0})
unfolding save_error
set_service_ports saved name ports s = (
  record s { services = insert name (record { ports = ports; offset = 0 }) s.services },
  save_error saved,
)

-- The table is saved only if the service is in it.
delete_found :
    Option Failure
    → String
    → ServiceMapping
    → Option PortsInfo
    → ServiceMapping × Outcome Failure (Unit {0})
unfolding save_error
delete_found saved name s none = (s, ok tt)
delete_found saved name s (some _) =
    (record s { services = delete name s.services }, save_error saved)

-- `DeleteServicePorts`
unfoldable pub delete_service_ports :
    Option Failure → String → ServiceMapping → ServiceMapping × Outcome Failure (Unit {0})
unfolding delete_found
delete_service_ports saved name s = delete_found saved name s (lookup name s.services)

-- The new position is written into the table.
store_next :
    String → ServiceMapping → Outcome Failure (PortsInfo × ℕ) → ServiceMapping × Outcome Failure ℕ
store_next name s (ok (info, port)) = (record s { services = insert name info s.services }, ok port)
store_next name s (err e) = (s, err e)
store_next name s panic = (s, panic)

-- `len(serviceInfo.PortInfo.Ports) == 0`, ahead of the call of `Next`
get_nonempty : String → ServiceMapping → PortsInfo → List ℕ → ServiceMapping × Outcome Failure ℕ
unfolding store_next next
get_nonempty name s info [] = (s, err no_ports)
get_nonempty name s info (_ ∷ _) = store_next name s (next info)

get_from : String → ServiceMapping → Option PortsInfo → ServiceMapping × Outcome Failure ℕ
unfolding get_nonempty
get_from name s none = (s, err no_service)
get_from name s (some info) = get_nonempty name s info info.ports

get_checked : String → ServiceMapping → Option Failure → ServiceMapping × Outcome Failure ℕ
unfolding get_from
get_checked name s (some e) = (s, err e)
get_checked name s none = get_from name s (lookup name s.services)

-- `GetServiceNextPort`
unfoldable pub get_service_next_port : String → ServiceMapping → ServiceMapping × Outcome Failure ℕ
unfolding get_checked
get_service_next_port name s = get_checked name s s.error

-- What the goroutine of `WatchFile` reads: a write of the file, with the table that `load` reads or an
-- error, or an error of the watcher.
pub data FileEvent : Type 0 where
  written : Outcome Failure (Dict PortsInfo) → FileEvent
  other_event : FileEvent
  watch_error : FileEvent

-- One round of the loop; `load` replaces the table and leaves `s.error` as it is.
unfoldable pub on_file_event : ServiceMapping → FileEvent → ServiceMapping
on_file_event s (written (ok services)) = record s { services = services }
on_file_event s (written (err e)) = record s { error = some e }
on_file_event s (written panic) = s
on_file_event s other_event = s
on_file_event s watch_error = record s { error = some watcher_failed }

-- The loop, over the events that it reads before it ends.
unfoldable pub watch_file : ServiceMapping → List FileEvent → ServiceMapping
unfolding on_file_event
watch_file s [] = s
watch_file s (e ∷ es) = watch_file (on_file_event s e) es
