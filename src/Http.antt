-- ===== src/Http.antt =====
-- The code of http/: requests, their parser, responses.
pub mod Number
pub mod Request
pub mod Context
pub mod Response
pub mod Server
pub mod Wire
pub mod Reply
