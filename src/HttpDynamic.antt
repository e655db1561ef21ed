-- ===== src/HttpDynamic.antt =====
-- ngx_http_dynamic.c: the locations and the virtual servers of a dynamic configuration, from the
-- directives to the server and the location of a request. Names is the order of names, Location the
-- directive `location`, Trees the static locations, Search the search with the regular expressions,
-- Servers the virtual servers, and Blocks the blocks of the configuration.
pub mod Names
pub mod Location
pub mod Trees
pub mod Search
pub mod Servers
pub mod Blocks
mod Tests
