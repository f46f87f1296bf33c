-- ===== src/Middlewares.antt =====
-- pkg/modules/app/server/site/middlewares: rewriting of paths, header fields, and static files.
-- The engine of `regexp` is a parameter: the compilation of an expression, and whether it matches.
pub mod Rewrite
pub mod Fields
pub mod Static
