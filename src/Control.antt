-- ===== src/Control.antt =====
-- The control transactions: src/wendougee_data/control_session.py from `set_boiler` on, and
-- src/wendougee_data/cleaning.py. Each is a program over the link of a control session.
pub mod Boiler
pub mod Rejections
pub mod Profile
pub mod Cleaning
pub mod Preparation
pub mod Attempts
pub mod Audit
