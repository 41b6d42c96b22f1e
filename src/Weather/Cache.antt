-- ===== src/Weather/Cache.antt =====
-- What `GetWeather` keeps in its cache.
use gamwich.Prelude.{
  ◌+◌, ◌*◌, ◌<◌, ◌≤◌, ◌≡◌, ◌⊎◌, ◌∙◌, refl, ap, inl, inr, true, false, none, some, List, [], ◌∷◌,
  All, arith, ◌==◌, Bool-cases,
}
use gamwich.Prelude.Result.{err}
use gamwich.Calendar.{Time, sub, nanos_per_second}
use gamwich.Weather.Service.{
  Config, ApiResponse, Reply, no_answer, answer, FetchError, Service, is_recent, data_of, fetch,
  get_weather, get_weather_all,
}

is_recent-soon :
    (now t : Time) → now < t + 30 * 60 * nanos_per_second → is_recent (sub now t) ≡ true
unfolding sub
is_recent-soon now t h = ground arith

is_recent-late :
    (now t : Time) → t + 30 * 60 * nanos_per_second ≤ now → is_recent (sub now t) ≡ false
unfolding sub
is_recent-late now t h = ground arith

module _ {Temp : Type 0} (zero_temp : Temp) where
  -- The request brings no data.
  abbrev pub Fails : Reply Temp → Type 0
  Fails no_answer = Unit
  Fails (answer code none) = Unit
  Fails (answer code (some r)) = (code == 200) ≡ false

  -- A call that comes less than half an hour after the time `t`, or whose request brings no data.
  abbrev pub Keeps : Time → Reply Temp × Time → Type 0
  Keeps t (reply, now) = (now < t + 30 * 60 * nanos_per_second) ⊎ Fails reply

  fetch-Fails :
      (reply : Reply Temp) (cfg : Config)
      → Fails reply
      → (e : FetchError) × (fetch zero_temp reply cfg ≡ err e)
  unfolding fetch
  fetch-Fails no_answer cfg h = (FetchError.request, refl)
  fetch-Fails (answer code none) cfg h = elim (Bool-cases (code == 200)) [
    | inl p ↦ (FetchError.bad_body, rw p refl)
    | inr p ↦ (FetchError.bad_status code, rw p refl)
  ]
  fetch-Fails (answer code (some r)) cfg h = (FetchError.bad_status code, rw h refl)

  get_weather-Keeps :
      (reply : Reply Temp) (now : Time) (s : Service Temp)
      → s.cached.available ≡ true
      → Keeps s.last_fetch (reply, now)
      → get_weather zero_temp reply now s ≡ s
  unfolding get_weather
  get_weather-Keeps reply now s h (inl soon) =
      let recent = is_recent-soon now s.last_fetch soon in ground (arith, recent, h)
  get_weather-Keeps reply now s h (inr fails) =
      let (e, failed) = fetch-Fails reply s.config fails in ground (arith, failed)

  get_weather_all-Keeps :
      (calls : List (Reply Temp × Time)) (s : Service Temp)
      → s.cached.available ≡ true
      → All (Keeps s.last_fetch) calls
      → get_weather_all zero_temp calls s ≡ s
  unfolding get_weather_all
  get_weather_all-Keeps [] s h k = refl
  get_weather_all-Keeps ((reply, now) ∷ calls) s h k =
      rw (get_weather-Keeps reply now s h k.0) (get_weather_all-Keeps calls s h k.1)

  -- A service with a place that has no data, or whose last fetch is half an hour old, and whose request
  -- is answered.
  fetches :
      (s : Service Temp) (r : ApiResponse Temp) (t : Time)
      → s.cached.configured ≡ true
      → (s.cached.available ≡ false) ⊎ (s.last_fetch + 30 * 60 * nanos_per_second ≤ t)
      → get_weather zero_temp (answer 200 (some r)) t s
        ≡ record s { cached = data_of zero_temp s.config r; last_fetch = t }
  unfolding get_weather fetch
  fetches s r t configured (inl none_yet) = rw (configured, none_yet) (ground arith)
  fetches s r t configured (inr old) = rw (configured, is_recent-late t s.last_fetch old) refl

  -- A service with a place that has no data, or data fetched half an hour before `t` or earlier, fetches
  -- them at `t` if its request is answered. It returns these data on all further calls, in any order, of
  -- which each comes less than half an hour after `t` or has a request that fails. After them, a call
  -- half an hour after `t` or later whose request is answered replaces the data.
  pub get_weather_all-fetched :
      (s : Service Temp) (r new : ApiResponse Temp) (t now : Time)
      (calls : List (Reply Temp × Time))
      → s.cached.configured ≡ true
      → (s.cached.available ≡ false) ⊎ (s.last_fetch + 30 * 60 * nanos_per_second ≤ t)
      → All (Keeps t) calls
      → t + 30 * 60 * nanos_per_second ≤ now
      → let kept =
          get_weather_all zero_temp calls (get_weather zero_temp (answer 200 (some r)) t s) in
        (kept ≡ record s { cached = data_of zero_temp s.config r; last_fetch = t })
        × (get_weather zero_temp (answer 200 (some new)) now kept
            ≡ record s { cached = data_of zero_temp s.config new; last_fetch = now })
  get_weather_all-fetched s r new t now calls configured stale keeps late =
      let fetched = record s { cached = data_of zero_temp s.config r; last_fetch = t } in
      let same : get_weather_all zero_temp calls (get_weather zero_temp (answer 200 (some r)) t s)
          ≡ fetched =
        ap (get_weather_all zero_temp calls) (fetches s r t configured stale)
        ∙ get_weather_all-Keeps calls fetched refl keeps in
      (
        same,
        ap (get_weather zero_temp (answer 200 (some new)) now) same
            ∙ fetches fetched new now refl (inr late),
      )
