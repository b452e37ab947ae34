-- ===== src/Storage.antt =====
-- Storage accounts and containers: apis/storage/v1alpha3, pkg/clients/storage and
-- pkg/controller/storage.
pub mod Types
pub mod Sdk
pub mod Convert
pub mod DeepEqual
pub mod Reconcile
pub mod Account
pub mod Container
pub mod Tests
pub mod AccountTests
pub mod CompletionTests
pub mod ContainerTests
