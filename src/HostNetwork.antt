-- ===== src/HostNetwork.antt =====
-- The network configuration of a host (internal/hostnetwork/manager.go and config.go): its data. The
-- journal and network.toml are the disk; `Env` answers the effects by their number, and with them
-- whether a write fails. The digest of a configuration (SHA-256 of its JSON) is a parameter.
pub mod Config
pub mod Bounds
pub mod Disk
pub mod Changes
pub mod Reads
pub mod Held
pub mod Applied
pub mod Repeated
pub mod Retried
pub mod Decisions
pub mod Services
pub mod Startup
pub mod Sound
pub mod Ownership
pub mod Wanted
pub mod Keeps
pub mod Kept
pub mod Decided
pub mod Served
pub mod Synced
pub mod Submitted
pub mod Started
pub mod Written
pub mod Recovered
pub mod Booted
pub mod Reach
use floatlab_core.Base.{Bool, List, Map, Option, String, [], nat_eq, string_eq, ℕ, ◌∷◌}
use floatlab_core.Base.Steps.{Step}

pub record IPv4 : Type 0 where
  pub mode : String
  pub address : String
  pub netmask : String
  pub gateway : String

pub record Bond : Type 0 where
  pub name : String
  pub mode : String
  pub members : List String

pub record NetworkConfig : Type 0 where
  pub version : ℕ
  pub excluded_macs : List String
  pub bonds : List Bond
  pub ipv4 : IPv4
  pub dns_servers : List String
  pub default_pool_id : String

-- `DefaultConfig`
abbrev pub default_config : NetworkConfig
default_config = record {
  version = 1;
  excluded_macs = [];
  bonds = [];
  ipv4 = record { mode = "dhcp"; address = ""; netmask = ""; gateway = "" };
  dns_servers = "1.1.1.1" ∷ "8.8.8.8" ∷ [];
  default_pool_id = "";
}

pub record Adapter : Type 0 where
  pub permanent_mac : String
  pub eligible : Bool

pub record Live : Type 0 where
  pub adapters : List Adapter
  pub addresses : List String

pub record Service : Type 0 where
  pub stack_id : String
  pub address : String
  pub pool_id : String

-- The values of `Change.State`; `no_state` is that of the zero value.
pub data ChangeState : Type 0 where
  no_state applying awaiting_confirmation confirmed rolled_back failed : ChangeState

-- `Change` and `diskChange`; a time is its microseconds.
pub record Change : Type 0 where
  pub id : String
  pub state : ChangeState
  pub deadline : ℕ
  pub error : String
  pub candidate : NetworkConfig
  pub previous : NetworkConfig
  pub key : String
  pub actor : String
  pub request_hash : String

pub record Journal : Type 0 where
  pub has_confirmed : Bool
  pub startup : Option NetworkConfig
  pub boot_id : String
  pub confirmed_config : NetworkConfig
  pub bridge_mac : String
  pub services : Map String Service
  pub pending : String
  pub needs_config : Bool
  pub changes : Map String Change

pub record Request : Type 0 where
  pub revision : String
  pub config : NetworkConfig
  pub key : String
  pub actor : String

-- `atomicWrite` renames the new file into place and then flushes the directory, so that a write that
-- fails may have replaced the file or not.
pub data WriteOutcome : Type 0 where
  written : WriteOutcome
  torn lost : String → WriteOutcome

-- The calls of `Backend` that answer with an error or nil.
pub data Call : Type 0 where
  apply_config : NetworkConfig → NetworkConfig → Call
  arm_timer : String → ℕ → Call
  cancel_timer : String → Call
  change_service : Service → Bool → Call
  archive_legacy : Call

-- What `network.toml` reads as.
pub data ConfigFile : Type 0 where
  absent unreadable : ConfigFile
  undecodable : String → ConfigFile
  decoded : NetworkConfig → ConfigFile

pub record Env : Type 0 where
  pub lock : ℕ → Option String
  pub read : ℕ → Option String
  pub write : ℕ → WriteOutcome
  pub call : ℕ → Call → Option String
  pub live : ℕ → Option Live
  pub boot_id : ℕ → Option String
  pub file : ℕ → ConfigFile
  pub polls : ℕ → ℕ
  pub now : ℕ → ℕ
  pub uuid : ℕ → String

pub record World : Type 0 where
  pub effects : ℕ
  pub journal : Option Journal
  pub toml : Option NetworkConfig
  pub calls : List (Call × Option String)

abbrev pub M : Type 0 → Type 0
M A = Step World A

abbrev pub Outcome : Type 0
Outcome = Option String
