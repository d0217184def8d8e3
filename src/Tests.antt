-- ===== src/Tests.antt =====
-- A sample system of three scooters and a zone of the centre of Bishkek, and the theorems at it.
pub mod Sample
mod Zones
mod Bills
mod Trips
mod Finishes
mod Holds
mod Fleet
mod Accounts
mod Mail
mod Address
mod Api
mod System
mod Sockets
