-- ===== src/Shell.antt =====
-- The shell's language (user/sh.c). A line is the list of its bytes without the zero byte.
pub mod Chars
pub mod Chain
pub mod Line
pub mod Backticks
pub mod Token
pub mod History
pub mod Editor
mod Tests
