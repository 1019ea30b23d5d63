-- ===== src/Chat/Mirror.antt =====
-- server_poll.c and server_select.c side by side: they differ only in how they wait.
pub mod Answers
pub mod Sets
pub mod Serve
pub mod Iteration
pub mod Run
