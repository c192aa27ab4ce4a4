-- ===== src/Examples.antt =====
-- Concrete runs of the models, one file for each part of the program.
mod Lock
mod Jobs
mod Paths
mod Pool
mod Restarts
mod Keys
mod Channels
mod Grants
mod Policies
mod Declarations
mod Addresses
mod Billing
mod Naming
mod Plans
pub mod Placing
mod Growing
mod Sessions
mod Linking
mod Opening
mod Watching
mod Locking
mod Handling
