-- ===== src/Learn.antt =====
-- frontend/src/lib/learnExercises.ts and scriptExercises.ts: the exercises of a lesson.
pub mod Shuffle
pub mod Lesson
pub mod Script
pub mod Counting
pub mod Fair
pub mod Order
pub mod ScriptFair
pub mod Tests
