-- ===== src/Http.antt =====
-- http/: requests, their parser, responses, and what the server does with a message. A string is the
-- list of its bytes.
pub mod Request
pub mod Context
pub mod Response
pub mod Server
