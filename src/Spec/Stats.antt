-- ===== src/Spec/Stats.antt =====
-- The statistics part of a node's view: the types of spec/v1/sync_report.go and of spec/v1/node.go, with
-- Go's nil maps as `none`.
pub mod Resource
pub mod Instances
pub mod View
use jopa.Common.{ℕ, String, Bool, Option, List}
use jopa.Common.Dict.{Dict}
use jopa.Spec.Value.{AppInfo}

pub record NodeInfo : Type 0 where
  pub hostname : String
  pub address : String
  pub arch : String
  pub kernel_version : String
  pub os : String
  pub container_runtime : String
  pub machine_id : String
  pub boot_id : String
  pub system_uuid : String
  pub os_image : String
  pub variant : String
  pub host_id : String
  pub role : String
  pub labels : Dict String
  pub client_ip : String

-- A value under `Extension`: a map whose values are floats (`some`) or not, or something else. `F` is
-- the type of floats.
pub data Extension (F : Type 0) : Type 0 where
  values : Dict (Option F) → Extension F
  opaque_value : Extension F

pub record NodeStats (F : Type 0) : Type 0 where
  pub disk_pressure : Bool
  pub memory_pressure : Bool
  pub pid_pressure : Bool
  pub network_unavailable : Bool
  pub ready : Bool
  pub usage : Option (Dict String)
  pub capacity : Option (Dict String)
  pub percent : Option (Dict String)
  pub net_io : Option (Dict String)
  pub extension : Option (Extension F)

-- `Status` of an application or of an instance; `empty_status` is the empty text.
pub data Status : Type 0 where
  pending failed running succeeded unknown empty_status : Status

pub data ContainerState : Type 0 where
  waiting container_running terminated : ContainerState

pub record ContainerInfo : Type 0 where
  pub name : String
  pub usage : Dict String
  pub state : ContainerState
  pub reason : String

pub record InstanceStats (F : Type 0) : Type 0 where
  pub name : String
  pub service_name : String
  pub app_name : String
  pub usage : Option (Dict String)
  pub extension : Option (Extension F)
  pub status : Status
  pub cause : String
  pub ip : String
  pub node_name : String
  pub pid : ℕ
  pub ppid : ℕ
  pub create_time : ℕ
  pub containers : List ContainerInfo
  pub init_containers : List ContainerInfo

pub record AppStats (F : Type 0) : Type 0 where
  pub info : AppInfo
  pub deploy_type : String
  pub status : Status
  pub cause : String
  pub instance_stats : Dict (InstanceStats F)

pub record CoreInfo : Type 0 where
  pub go_version : String
  pub bin_version : String
  pub git_revision : String

-- `time` is in nanoseconds; the counts of `node_ins_num` are Go ints.
pub record ReportView (F : Type 0) : Type 0 where
  pub time : Option ℕ
  pub apps : List AppInfo
  pub sys_apps : List AppInfo
  pub core : Option CoreInfo
  pub app_stats : List (AppStats F)
  pub sys_app_stats : List (AppStats F)
  pub node : Dict NodeInfo
  pub node_stats : Dict (NodeStats F)
  pub node_ins_num : Dict ℕ
  pub mode_info : String
