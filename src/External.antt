-- ===== src/External.antt =====
-- The services that the program calls and does not implement, as records of operations on a state of
-- their own, and the behaviour that their documentation promises as records of laws.
pub mod Uuids
pub mod Table
pub mod TigerBeetle
pub mod Provider
pub mod Broker
pub mod Redis
pub mod Jwt
pub mod Bcrypt
pub mod Http
pub mod Mail
