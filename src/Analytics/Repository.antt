-- ===== src/Analytics/Repository.antt =====
-- app/analytics/repository: one module for each collection.
pub mod Indexes
pub mod Collections
pub mod RestaurantDays
pub mod BranchDays
pub mod ProductDays
pub mod PlatformDays
pub mod OrderContexts
pub mod EventIds
