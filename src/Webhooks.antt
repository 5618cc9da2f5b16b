-- ===== src/Webhooks.antt =====
-- The events of ClickUp, from the endpoint that takes them to the jobs and the history that come of
-- them: webhooks, workers/clickup-event.processor.ts, jobs, and the administrative retries.
pub mod Json
pub mod Parser
pub mod Store
pub mod Events
pub mod DeadLetters
pub mod Worker
pub mod Retry
pub mod Waiting
pub mod FollowUps
pub mod History
pub mod Answers
pub mod Growth
pub mod Tracking
pub mod Steps
pub mod Workers
pub mod Delivery
pub mod Tests
