-- ===== src/Apps.antt =====
-- The small applications: the text editor (apps/text-editor) and the file manager (apps/files).
pub mod Editor
pub mod Files
mod Tests
