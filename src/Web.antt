-- ===== src/Web.antt =====
-- web: the web interface, of which the cache of results is modelled.
pub mod Cache
mod Tests
