-- ===== src/Players.antt =====
-- The players beside the lesson player, all in frontend/src/components: learn/PracticePlayer.tsx,
-- learn/DailyLessonPlayer.tsx, vocab/ReviewPlayer.tsx and learn/ScriptLessonPlayer.tsx.
pub mod Daily
pub mod Practice
pub mod Review
pub mod Script
pub mod Tests
