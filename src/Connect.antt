-- ===== src/Connect.antt =====
-- The methods `Connect` of the controllers, pkg/controller/*/*.go: the credentials of the managed
-- resource, and the external client that is made with them. A constructor of the SDK is a parameter:
-- it takes the subscription, and the authorizer that the code sets after it.
pub mod Databases
pub mod Resources
pub mod Aks
pub mod Consistency
pub mod Naming
pub mod Tests
