-- ===== src/Api.antt =====
-- The HTTP interface: api/service.py, api/schemas.py and the routes of api/main.py.
pub mod Application
pub mod Service
pub mod Events
