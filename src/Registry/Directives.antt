-- ===== src/Registry/Directives.antt =====
-- backend/src/directive: the GraphQL directives that let a resolver run only with a permission.
pub mod Slugs
pub mod Package
pub mod Catalog
pub mod Collection
pub mod Group
