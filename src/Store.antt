-- ===== src/Store.antt =====
-- src/unhalted/store.py: the tables, and the methods of `Store` by the table that they write.
pub mod Tables
pub mod Cases
pub mod Trail
pub mod Queue
pub mod Suppressions
pub mod Ownership
pub mod Rows
pub mod Barred
pub mod Payments
pub mod Leases
pub mod Listings
