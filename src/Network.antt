-- ===== src/Network.antt =====
-- crates/network/src/ipam.rs: addresses, subnets and the lease allocator.
pub mod Address
pub mod Subnet
pub mod Ipam
pub mod Publish
pub mod Dns
mod Tests
