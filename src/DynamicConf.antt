-- ===== src/DynamicConf.antt =====
-- ngx_dynamic_conf.c: the configuration that is read again while nginx runs.
pub mod Token
pub mod Reader
pub mod Handler
pub mod Parse
pub mod Load
pub mod Check
mod Tests
