-- ===== src/Handlers/Js.antt =====
-- pkg/modules/app/server/site/handlers/js: the handler that renders a page by a script.
pub mod Dom
pub mod Api
pub mod Vm
pub mod Page
pub mod Options
pub mod States
pub mod Serving
