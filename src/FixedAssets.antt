-- ===== src/FixedAssets.antt =====
-- backend/src/modules/fixed_assets: the monthly depreciation run of
-- application/services.py, over the asset register.
pub mod Register
pub mod Depreciation
