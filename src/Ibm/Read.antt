-- ===== src/Ibm/Read.antt =====
-- `ibm_mfm_search` and `ibm_mfm_read_sector` of src/ibm.c (defined in the parent) as functions of
-- the captured words.
pub mod Header
pub mod Search
pub mod Data
pub mod Sector
