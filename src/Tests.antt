-- ===== src/Tests.antt =====
-- The theorems at concrete inputs, on a little-endian host, one module for each part of the program.
mod Addresses
mod Tables
mod Messages
mod Forwarding
mod Mappings
mod Pools
mod Payloads
mod Sums
mod Packets
mod Headers
mod Extensions
