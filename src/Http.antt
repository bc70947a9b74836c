-- ===== src/Http.antt =====
-- internal/http/handler.go: the server in front of the two stores. `Budget` keeps the disk that both
-- take together within a limit.
pub mod Budget
pub mod Stores
pub mod Sessions
pub mod Retention
pub mod Tests
