-- ===== src/Weather.antt =====
-- internal/weather/weather.go: the service with its cache. A temperature is of a type given as a
-- parameter, with its zero; what a request to the weather service brings and the time of a call are
-- arguments.
pub mod Codes
pub mod Service
pub mod Cache
pub mod Tests
