-- ===== src/CoreEvents.antt =====
-- lib/coreevents and the message types of pkg/messaging/types.go.
pub mod Dedupe
pub mod Consumer
pub mod Settling
pub mod Redelivery
pub mod Retry
pub mod Workers
