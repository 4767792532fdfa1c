-- ===== src/Store.antt =====
-- agent/src/store.rs: the preferences store, with its profiles, recents and excluded locations.
pub mod Checks
pub mod Edit
pub mod Values
pub mod File
pub mod Locale
pub mod Excluded
pub mod Ids
pub mod Profiles
pub mod Recents
pub mod Defaults
pub mod Resolve
pub mod Requests
pub mod Changes
pub mod Seed
pub mod Disk
pub mod Handle
pub mod Accounts
pub mod Persist
pub mod Commit
pub mod Keeps
pub mod Kept
mod Isolation
mod Locations
mod Sorting
mod Trimming
pub mod Tidy
mod Counting
pub mod Distinct
pub mod OwnIds
pub mod Seeding
mod Fresh
mod Copies
mod Latest
mod Clean
mod Choices
mod Connectable
mod Atomic
mod Reload
mod Pages
pub mod Activation
pub mod TestDisk
mod Tests
