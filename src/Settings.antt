-- ===== src/Settings.antt =====
-- rawfile/config/model.py, rawfile/utils/net.py and rawfile/utils/units.py: the checks of settings and parameters.
pub mod Validation
pub mod Addresses
pub mod Nameservers
pub mod Parameters
mod Tests
