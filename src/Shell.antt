-- ===== src/Shell.antt =====
-- A1, the shell: the process table of pcb.c, the commands of command.c, and what shell379.c reads
-- and does with its arguments.
pub mod Heap
pub mod Pcb
pub mod Command
pub mod Line
pub mod Args
pub mod Shutdown
pub mod Run
pub mod Main
pub mod Errors
pub mod Life
mod Examples
