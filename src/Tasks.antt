-- ===== src/Tasks.antt =====
-- src/tasks/: the tasks that run beside the server, as state machines that take one event at a time.
pub mod Cleanup
pub mod LogFilter
