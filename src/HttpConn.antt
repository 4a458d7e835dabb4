-- ===== src/HttpConn.antt =====
-- http/http_conn.{h,cpp}: `http_conn`, one slot for a connection.
pub mod State
pub mod RequestLine
pub mod Headers
pub mod Reading
pub mod Writing
pub mod Process
pub mod Cursor
pub mod Termination
pub mod Steps
pub mod Slots
pub mod Generations
pub mod Sending
pub mod Finishing
pub mod Lines
pub mod Targets
pub mod HeaderLines
pub mod Bodies
pub mod Requests
pub mod SplitBody
mod Tests
