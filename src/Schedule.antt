-- ===== src/Schedule.antt =====
-- The schedules of internal/scheduler: cron expressions and their next time.
pub mod Words
pub mod Field
pub mod SpanLaws
pub mod Reading
pub mod FieldLaws
pub mod FieldMeaning
pub mod Cron
pub mod CronLaws
mod Samples
