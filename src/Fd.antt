-- ===== src/Fd.antt =====
-- kernel/core/file.c: the descriptor table of a process, and the open files that descriptors share.
-- An operation is a function of the state that returns its result and the next state, or `none`: a
-- failed assertion, a panic, a read or write through a null or dangling pointer or outside the
-- table, or the overflow of an `int`.
pub mod Machine
pub mod Alloc
pub mod Duplicate
pub mod Refs
pub mod After
pub mod Deref
pub mod Counted
pub mod Growth
pub mod Sharing
pub mod Dup
pub mod Fork
pub mod Returns
pub mod Lowest
mod Tests
mod Examples
