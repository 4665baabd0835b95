-- ===== src/Domain.antt =====
-- The vocabulary of the services: the enumerations of `app/models/enums.py` and the errors of
-- `app/core/exceptions.py`.
pub mod Enums
pub mod Errors
