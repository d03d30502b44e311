-- ===== src/Db.antt =====
-- The tables of app/backend/migrations/ (001, 003, 004, 006): rows, keys and what a statement may
-- answer. A table is the list of its rows, newest first. Ids are BIGINTs as their 64-bit patterns;
-- texts are lists of code points; times are numbers on the clock of the database server.
pub mod Tables
pub mod Errors
pub mod Rows
pub mod Invariant
pub mod Listed
pub mod Cascade
