-- ===== src/Migrations.antt =====
-- The schema and its history: the tables of app/persistence/models.py, and the revisions of
-- migrations/versions that lead to them.
pub mod Schema
pub mod Database
pub mod Initial
pub mod Models
pub mod Revisions
pub mod Tables
pub mod Owners
pub mod Head
pub mod Strategies
pub mod Installed
