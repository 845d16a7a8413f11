-- ===== src/Mongo.antt =====
-- The MongoDB driver, which is not part of the repository: a parameter of the model.
pub mod Finding
pub mod Grouping
pub mod Bson
pub mod Driver
