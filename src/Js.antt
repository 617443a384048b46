-- ===== src/Js.antt =====
-- The parts of JavaScript and Node.js that the validators use.
pub mod Text
pub mod Strings
pub mod Number
pub mod Json
pub mod Runtime
pub mod Utf8
