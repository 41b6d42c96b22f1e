-- ===== src/Weather/Tests.antt =====
-- A witness for the weather cache, with temperatures as numbers.
use gamwich.Prelude.{ℕ, ◌+◌, ◌*◌, ◌≡◌, refl, inl, inr, true, false, some, List, [], ◌∷◌, arith}
use gamwich.Text.{codes}
use gamwich.Calendar.{Time, nanos_per_day}
use gamwich.Weather.Service.{
  ApiResponse, Reply, no_answer, answer, Service, new_service, data_of, get_weather,
  get_weather_all,
}
use gamwich.Weather.Cache.{get_weather_all-fetched}

abbrev service : Service ℕ
service =
    new_service 0
      (record { latitude = codes "47.6"; longitude = codes "-122.3"; temperature_unit = [] })

abbrev rainy : ApiResponse ℕ
rainy = record { temperature = 52; weather_code = 61; temp_max = 55 ∷ []; temp_min = 44 ∷ [] }

abbrev sunny : ApiResponse ℕ
sunny = record { temperature = 60; weather_code = 0; temp_max = 66 ∷ []; temp_min = 48 ∷ [] }

abbrev noon : Time
noon = 740015 * nanos_per_day

abbrev calls : List (Reply ℕ × Time)
calls = (answer 200 (some sunny), noon + 60000000000) ∷ (no_answer, noon + nanos_per_day) ∷ []

service_has_place : service.cached.configured ≡ true
unfolding new_service
service_has_place = refl

service_empty : service.cached.available ≡ false
unfolding new_service
service_empty = refl

get_weather_all-fetched_example :
    (get_weather_all 0 calls (get_weather 0 (answer 200 (some rainy)) noon service)
      ≡ record service { cached = data_of 0 service.config rainy; last_fetch = noon })
    × (get_weather 0
          (answer 200 (some sunny))
          (noon + nanos_per_day)
          (get_weather_all 0 calls (get_weather 0 (answer 200 (some rainy)) noon service))
        ≡ record service {
          cached = data_of 0 service.config sunny;
          last_fetch = noon + nanos_per_day;
        })
get_weather_all-fetched_example =
    get_weather_all-fetched 0 service rainy sunny noon (noon + nanos_per_day) calls
      service_has_place (inl service_empty) (inl (omega arith), (inr tt, tt)) (omega arith)
