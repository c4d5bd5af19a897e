-- ===== src/Ctx/Env.antt =====
-- context/env.go: names, hosts, ports and addresses, from the variables of the environment.
use jopa.Common.{String, ◌++ₛ◌, Bool, ◌==ₛ◌, if◌then◌else◌}
use jopa.Common.Dict.{Dict, lookup, insert}
use jopa.Common.{Option, none, some}

-- The variables that are set, and whether the system is Windows.
pub record Env : Type 0 where
  pub vars : Dict String
  pub is_windows : Bool

abbrev pub key_baetyl : String
key_baetyl = "BAETYL"

abbrev pub key_conf_file : String
key_conf_file = "BAETYL_CONF_FILE"

abbrev pub key_node_name : String
key_node_name = "BAETYL_NODE_NAME"

abbrev pub key_app_name : String
key_app_name = "BAETYL_APP_NAME"

abbrev pub key_app_version : String
key_app_version = "BAETYL_APP_VERSION"

abbrev pub key_svc_name : String
key_svc_name = "BAETYL_SERVICE_NAME"

abbrev pub key_sys_conf : String
key_sys_conf = "BAETYL_SYSTEM_CONF"

abbrev pub key_run_mode : String
key_run_mode = "BAETYL_RUN_MODE"

abbrev pub key_host_path_lib : String
key_host_path_lib = "BAETYL_HOST_PATH_LIB"

-- `os.Getenv`: a variable that is not set is empty.
abbrev pub getenv : Env → String → String
getenv env key = elim (lookup key env.vars) [ none ↦ "" | some v ↦ v ]

-- `HostPathLib`, with the environment after it; `setenv` says whether `os.Setenv` succeeds.
unfoldable pub host_path_lib : Bool → Env → Option String × Env
host_path_lib setenv env =
    let value = if env.is_windows then "C:/baetyl" else "/var/lib/baetyl" in
    if getenv env key_host_path_lib ==ₛ ""
    then (if setenv
        then (some value, record env { vars = insert key_host_path_lib value env.vars })
        else (none, env))
    else (some (getenv env key_host_path_lib), env)

abbrev pub run_mode_native : String
run_mode_native = "native"

-- `RunMode`
unfoldable pub run_mode : Env → String
run_mode env = if getenv env key_run_mode ==ₛ run_mode_native then run_mode_native else "kube"

abbrev pub is_native : Env → Bool
is_native env = run_mode env ==ₛ run_mode_native

-- `BrokerHost`, `CoreHost` and `FunctionHost` of a service, with its name in the namespace of the edge system.
unfoldable pub host_of : String → Env → String
unfolding run_mode
host_of service env =
    if is_native env then "127.0.0.1" else service ++ₛ "." ++ₛ "baetyl-edge-system"

-- `BrokerPort`
abbrev pub broker_port : String
broker_port = "50010"

-- `FunctionHttpPort`
abbrev pub function_http_port : String
function_http_port = "50011"

-- `CoreHttpPort`
unfoldable pub core_http_port : Env → String
unfolding run_mode
core_http_port env = if is_native env then "8443" else "443"

-- `getBrokerAddress`
unfoldable pub get_broker_address : Env → String
unfolding host_of
get_broker_address env = "ssl" ++ₛ "://" ++ₛ host_of "baetyl-broker" env ++ₛ ":" ++ₛ broker_port

-- `getFunctionAddress`
unfoldable pub get_function_address : Env → String
unfolding host_of
get_function_address env =
    "https" ++ₛ "://" ++ₛ host_of "baetyl-function" env ++ₛ ":" ++ₛ function_http_port

-- `getCoreAddress`
unfoldable pub get_core_address : Env → String
unfolding host_of core_http_port
get_core_address env =
    "https" ++ₛ "://" ++ₛ host_of "baetyl-core" env ++ₛ ":" ++ₛ core_http_port env

-- `getCoreInscureAdddress`
unfoldable pub get_core_insecure_address : Env → String
unfolding host_of core_http_port
get_core_insecure_address env =
    "http" ++ₛ "://" ++ₛ host_of "baetyl-core" env ++ₛ ":" ++ₛ core_http_port env
