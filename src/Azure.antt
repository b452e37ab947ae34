-- ===== src/Azure.antt =====
-- pkg/clients/azure.go: conversions between Go values and the pointers of the Azure SDK, late
-- initialisation, classification of errors, polling of operations and credentials.
pub mod Convert
pub mod LateInit
pub mod Operation
pub mod Auth
mod Client
pub mod Connect
mod Tests
