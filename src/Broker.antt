-- ===== src/Broker.antt =====
-- The file broker of a module worker (lib/fs-broker): its paths, its lock, its quota and its
-- scheduler.
pub mod Namespace
pub mod RwLock
pub mod Quota
pub mod Scheduler
pub mod Place
pub mod Growth
pub mod Names
pub mod Open
