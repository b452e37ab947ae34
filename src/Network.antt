-- ===== src/Network.antt =====
-- Virtual networks, subnets and public IP addresses: apis/network/v1alpha3, pkg/clients/network and
-- pkg/controller/network.
pub mod Types
pub mod Order
pub mod Tags
pub mod Params
pub mod PublicIp
pub mod Controllers
pub mod Settled
pub mod Tests
