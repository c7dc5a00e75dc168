-- ===== src/Client.antt =====
-- The types of frontend/lib/gps-client.ts.
mod Tests
pub mod Calls
pub mod Lines
pub mod Filename
pub mod Requests
use gps_connector.Prelude.{
  ℤ, ℕ, ◌+◌, Text, String, codes, Bool, true, false, ◌&&◌, not, List, [], ◌∷◌, ◌++◌, Option, none,
  some, leb, ltb, ◌==◌, if◌then◌else◌, filter, trim, truthy, decimal, or_else,
}

-- The numbers of a device that may have fractions are of a type `Num`; times are seconds since 1970.
pub record Device (Num : Type 0) : Type 0 where
  pub imei : Text
  pub device_type : Option Text
  pub latitude : Option Num
  pub longitude : Option Num
  pub device_timestamp : Option ℕ
  pub ignition : Option ℕ
  pub moving : Option ℕ
  pub plate : Option Text
  pub vehicle_id : Option Text
  pub make : Option Text
  pub model : Option Text
  pub cost : Option Num
  pub associated_location : Option Text
  pub fuel_type : Option Text
  pub vehicle_type : Option Text
  pub fuel_usage : Option Num
  pub capacity : Option Num
  pub leasing_end_date : Option ℕ

pub data RegisterStatus : Type 0 where
  created already_registered error : RegisterStatus

pub record RegisterInput : Type 0 where
  pub imei : Text
  pub device_type : Text

pub record RegisterResult : Type 0 where
  pub imei : Text
  pub status : RegisterStatus
  pub error : Option Text

-- One line of the answer to `getPositions`. `device_timestamp` is in seconds since 1970; `ignition` and
-- `moving` are 0 or 1.
pub record PositionRow (Num : Type 0) : Type 0 where
  pub imei : Text
  pub device_timestamp : ℕ
  pub latitude : Num
  pub longitude : Num
  pub ignition : Option ℕ
  pub moving : Option ℕ
  pub plate : Option Text

pub record DeviceMetadata (Num Seconds : Type 0) : Type 0 where
  pub plate : Option Text
  pub vehicle_id : Option Text
  pub make : Option Text
  pub model : Option Text
  pub vehicle_type : Option Text
  pub fuel_type : Option Text
  pub fuel_usage : Option Num
  pub capacity : Option Num
  pub cost : Option Num
  pub leasing_end_date : Option Seconds
  pub associated_location : Option Text

pub data PatchStatus : Type 0 where
  updated not_found error : PatchStatus

pub record PatchResult : Type 0 where
  pub imei : Text
  pub status : PatchStatus
  pub error : Option Text

pub data DeleteStatus : Type 0 where
  deleted not_found error : DeleteStatus

pub record DeleteResult : Type 0 where
  pub imei : Text
  pub status : DeleteStatus
  pub error : Option Text

pub record Me : Type 0 where
  pub sub : Text
  pub cvr : Text
  pub idp : Text
  pub privilege_urns : Option (List Text)

pub record TenantCertificate : Type 0 where
  pub subject : Text
  pub issuer : Text
  pub serial : Text
  pub not_before : Text
  pub not_after : Text
  pub days_until_expiry : ℤ
  pub needs_rotation : Bool
