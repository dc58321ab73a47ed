-- ===== src/Config.antt =====
-- internal/config: the sections of the configuration with their defaults and their validation. A
-- validation gives the list of the problems that it appends.
pub mod Values
pub mod Checks
pub mod QueueSection
pub mod StoreSections
pub mod CallerSections
pub mod DeliverySections
pub mod ServerSections
pub mod Whole
pub mod Reload
pub mod Reloaded
pub mod Silent
pub mod Heartbeats
pub mod Hashes
pub mod Clients
pub mod Started
mod Examples
