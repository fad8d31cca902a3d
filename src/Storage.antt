-- ===== src/Storage.antt =====
-- src/services/storage.rs: the statements on the tables `sessions` and `api_keys`. Each method is
-- an action on the world; the database may refuse its statement.
-- SQLite adds to `attempt_count` as an integer; that count cannot come near the range of `i64`.
pub mod Sessions
pub mod ApiKeys
