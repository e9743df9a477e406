-- ===== src/Tests.antt =====
-- The theorems on the small office, and runs of the program on it.
mod Clocks
mod Offices
mod Documents
mod Books
mod Models
mod Sockets
mod Shifts
mod Shelves
mod Talks
mod Hands
