-- ===== src/Storage/Convert.antt =====
-- apis/storage/v1alpha3/account.go: the conversions between the API's types and the SDK's.
pub mod FromSdk
pub mod ToSdk
pub mod Parts
pub mod RoundTrip
pub mod Panics
pub mod Update
