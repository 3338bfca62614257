-- ===== src/Auth.antt =====
-- apps/frontend/src/features/auth with store/baseApi.ts, App.tsx and the login and registration
-- pages: the session, the forms, the guards of the routes and the handlers that compose them.
pub mod Session
pub mod Forms
pub mod Routing
pub mod Query
pub mod Submit
pub mod Fields
