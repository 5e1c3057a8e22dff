-- ===== src/Types.antt =====
-- backend/types.go: the records that the backend keeps and exchanges. A text is a list of code
-- points; times and latencies are milliseconds (a negative stored time acts as 0 does).
use pwdtt.Prelude.{ℕ, Bool, List, Option}
use pwdtt.Prelude.Text.{Text}
use pwdtt.Prelude.TextMap.{TextMap}

pub record ConnectParams : Type 0 where
  pub peer_addr : Text
  pub password : Text
  pub hashes : List Text
  device_id : Text
  workers : ℕ
  captcha_mode : Text
  obfs_mode : Text
  fingerprint : Text
  pub profile_name : Text
  pub hash_mode : Text
  pub hash_auto_check : Bool
  pub hash_auto_replace : Bool
  operation_id : Text

pub record VkHashPolicy : Type 0 where
  pub mode : Text
  pub auto_check : Bool
  pub auto_replace : Bool

pub record VkHashCheck : Type 0 where
  pub status : Text
  pub checked_at : ℕ
  pub error_type : Text
  pub message : Text
  pub latency_ms : ℕ

pub record VkHashEntry : Type 0 where
  pub id : Text
  pub hash : Text
  pub source : Text
  pub in_pool : Bool
  pub created_at : ℕ
  pub checks : TextMap VkHashCheck
  pub used_by : List Text

pub record VkHashCheckResult : Type 0 where
  pub hash_id : Text
  pub hash : Text
  pub profile_name : Text
  pub status : Text
  pub checked_at : ℕ
  pub error_type : Text
  pub message : Text
  pub latency_ms : ℕ

pub record ProfileData : Type 0 where
  pub peer_addr : Text
  pub password : Text
  pub hashes : List Text
  pub listen : Text
  pub turn_host : Text
  pub turn_port : Text
  pub device_id : Text
  pub hash_policy : Option VkHashPolicy

record AppSettings : Type 0 where
  auto_start : Bool
  pub obfs_mode : Text
  obfs_accepted : Bool
  pub debug_logging : Bool
