-- ===== src/Api.antt =====
-- The management routes of backend/app/api/v1.
pub mod Tables
pub mod History
pub mod Site
pub mod Access
pub mod Lists
pub mod Devices
pub mod DeviceGroups
pub mod Profiles
pub mod Authorizations
pub mod WellFormed
