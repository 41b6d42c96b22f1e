-- ===== src/Weather/Service.antt =====
-- `NewService`, `UpdateConfig`, `GetWeather` and `fetch` of internal/weather/weather.go.
use gamwich.Prelude.{
  ℕ, Bool, true, false, not, ◌&&◌, Option, none, some, List, [], ◌∷◌, ltb, ◌==◌, if◌then◌else◌,
}
use gamwich.Prelude.Int.{ℤ, pos, negsuc}
use gamwich.Prelude.Result.{Result, ok, err}
use gamwich.Text.{is_empty, Text, codes, text_eq}
use gamwich.Calendar.{Time, sub, zero_time}
use gamwich.Weather.Codes.{wmo_code_to_desc_icon}

-- Thirty minutes.
abbrev pub cache_ttl : ℕ
cache_ttl = 1800000000000

pub record Config : Type 0 where
  pub latitude : Text
  pub longitude : Text
  pub temperature_unit : Text

pub record WeatherData (Temp : Type 0) : Type 0 where
  pub current_temp : Temp
  pub current_code : ℕ
  pub current_desc : Text
  pub current_icon : Text
  pub high_temp : Temp
  pub low_temp : Temp
  pub unit : Text
  pub available : Bool
  pub configured : Bool

pub record ApiResponse (Temp : Type 0) : Type 0 where
  pub temperature : Temp
  pub weather_code : ℕ
  pub temp_max : List Temp
  pub temp_min : List Temp

-- What the request comes to: no answer, or a status code with a body that decodes or does not.
pub data Reply (Temp : Type 0) : Type 0 where
  no_answer : Reply Temp
  answer : ℕ → Option (ApiResponse Temp) → Reply Temp

pub data FetchError : Type 0 where
  request bad_body : FetchError
  bad_status : ℕ → FetchError

pub record Service (Temp : Type 0) : Type 0 where
  pub config : Config
  pub cached : WeatherData Temp
  pub last_fetch : Time

abbrev with_unit : Config → Config
with_unit cfg =
    if is_empty cfg.temperature_unit
    then record cfg { temperature_unit = codes "fahrenheit" }
    else cfg

abbrev unit_of : Text → Text
unit_of name = if text_eq name (codes "celsius") then codes "C" else codes "F"

-- `time.Since(s.lastFetch) < cacheTTL`
abbrev pub is_recent : ℤ → Bool
is_recent (pos k) = ltb k cache_ttl
is_recent (negsuc k) = true

module _ {Temp : Type 0} (zero_temp : Temp) where
  abbrev empty_data : Config → WeatherData Temp
  empty_data cfg = record {
    current_temp = zero_temp;
    current_code = 0;
    current_desc = [];
    current_icon = [];
    high_temp = zero_temp;
    low_temp = zero_temp;
    unit = unit_of (with_unit cfg).temperature_unit;
    available = false;
    configured = not (is_empty cfg.latitude) && not (is_empty cfg.longitude);
  }

  unfoldable pub new_service : Config → Service Temp
  new_service cfg = record {
    config = with_unit cfg;
    cached = empty_data cfg;
    last_fetch = zero_time;
  }

  unfoldable pub update_config : Config → Service Temp → Service Temp
  update_config cfg s = record {
    config = with_unit cfg;
    cached = empty_data cfg;
    last_fetch = zero_time;
  }

  abbrev first_or_zero : List Temp → Temp
  first_or_zero [] = zero_temp
  first_or_zero (t ∷ ts) = t

  abbrev pub data_of : Config → ApiResponse Temp → WeatherData Temp
  data_of cfg r = record {
    current_temp = r.temperature;
    current_code = r.weather_code;
    current_desc = (wmo_code_to_desc_icon r.weather_code).0;
    current_icon = (wmo_code_to_desc_icon r.weather_code).1;
    high_temp = first_or_zero r.temp_max;
    low_temp = first_or_zero r.temp_min;
    unit = unit_of cfg.temperature_unit;
    available = true;
    configured = true;
  }

  -- `fetch`, with what its request brings.
  unfoldable pub fetch : Reply Temp → Config → Result FetchError (WeatherData Temp)
  fetch no_answer cfg = err request
  fetch (answer code body) cfg =
      if code == 200
      then elim body [ none ↦ err bad_body | some r ↦ ok (data_of cfg r) ]
      else err (bad_status code)

  -- `GetWeather` at the time `now`; the reply is read if it fetches. It returns the cache.
  unfoldable pub get_weather : Reply Temp → Time → Service Temp → Service Temp
  get_weather reply now s =
      if not s.cached.configured
      then s
      else if is_recent (sub now s.last_fetch) && s.cached.available
      then s
      else elim (fetch reply s.config) [
        | err e ↦ s
        | ok found ↦ record s { cached = found; last_fetch = now }
      ]

  -- The service after the calls of a list.
  unfoldable pub get_weather_all : List (Reply Temp × Time) → Service Temp → Service Temp
  get_weather_all [] s = s
  get_weather_all ((reply, now) ∷ calls) s = get_weather_all calls (get_weather reply now s)
