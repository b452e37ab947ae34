-- ===== src/Network/Controllers.antt =====
-- pkg/controller/network/virtualnetwork/managed.go and pkg/controller/network/subnet/managed.go: what
-- the managed reconciler calls.
pub mod VirtualNetworks
pub mod Subnets
