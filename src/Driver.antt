-- ===== src/Driver.antt =====
-- pkg/driver: the controllers that move the durable records of a volume and its data, one crash-safe
-- step at a time.
pub mod Errors
pub mod World
pub mod Program
pub mod Stores
pub mod Disposition
pub mod Pair
pub mod Delete
pub mod Reservation
pub mod DeleteVolume
mod Examples
