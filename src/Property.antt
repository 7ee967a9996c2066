-- ===== src/Property.antt =====
-- Apartments and estates: property/property.service.ts and apartment/apartment.service.ts.
pub mod Tables
pub mod Access
pub mod Bookings
pub mod Rebookings
pub mod Disjoint
pub mod Created
pub mod Edited
pub mod Calls
pub mod Units
pub mod Contacts
pub mod Residents
pub mod Settled
pub mod Moves
pub mod Occupancy
pub mod Arrivals
pub mod ResidentCalls
pub mod Tests
