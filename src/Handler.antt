-- ===== src/Handler.antt =====
-- Package handler: the HTTP handlers of app/backend/internal/handler/.
pub mod Response
pub mod Fetch
pub mod Bulk
pub mod Page
pub mod Timeline
pub mod Search
pub mod Visits
pub mod Stream
pub mod Answers
pub mod Thread
pub mod Notification
pub mod Like
pub mod Post
pub mod Repost
pub mod Reply
pub mod User
pub mod Auth
pub mod Health
