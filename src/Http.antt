-- ===== src/Http.antt =====
-- internal/adapter/http: the handlers of the requests, in front of the use cases.
pub mod Errors
pub mod Requests
pub mod Handlers
pub mod Answers
pub mod Guarded
pub mod Pages
mod Tests
