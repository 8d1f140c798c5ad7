-- ===== src/Examples.antt =====
-- Tests of the models, and applications of the theorems at concrete inputs.
mod Data
mod Rings
mod Users
mod Rooms
mod Logins
mod Closings
mod Loops
mod Servers
mod Sessions
mod Rows
mod Chats
mod Programs
