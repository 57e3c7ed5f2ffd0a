-- ===== src/Errors.antt =====
-- src/aiotruenas/exceptions.py and src/aiotruenas/_errors.py: the typed errors, and how connection
-- failures and JSON-RPC error objects are turned into them.
pub mod Exceptions
pub mod Classify
pub mod Laws
