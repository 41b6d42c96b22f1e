-- ===== src/Weather/Codes.antt =====
-- `WMOCodeToDescIcon` of internal/weather/weather.go. A weather code is a number; an icon is the bytes
-- of its UTF-8 text.
use gamwich.Prelude.{ℕ, ◌||◌, [], ◌∷◌, ◌==◌, if◌then◌else◌}
use gamwich.Text.{Text, codes}

abbrev sun : Text
sun = 226 ∷ 152 ∷ 128 ∷ 239 ∷ 184 ∷ 143 ∷ []

abbrev sun_small_cloud : Text
sun_small_cloud = 240 ∷ 159 ∷ 140 ∷ 164 ∷ 239 ∷ 184 ∷ 143 ∷ []

abbrev sun_cloud : Text
sun_cloud = 226 ∷ 155 ∷ 133 ∷ []

abbrev cloud : Text
cloud = 226 ∷ 152 ∷ 129 ∷ 239 ∷ 184 ∷ 143 ∷ []

abbrev fog : Text
fog = 240 ∷ 159 ∷ 140 ∷ 171 ∷ 239 ∷ 184 ∷ 143 ∷ []

abbrev sun_rain : Text
sun_rain = 240 ∷ 159 ∷ 140 ∷ 166 ∷ 239 ∷ 184 ∷ 143 ∷ []

abbrev rain : Text
rain = 240 ∷ 159 ∷ 140 ∷ 167 ∷ 239 ∷ 184 ∷ 143 ∷ []

abbrev snow : Text
snow = 240 ∷ 159 ∷ 140 ∷ 168 ∷ 239 ∷ 184 ∷ 143 ∷ []

abbrev snowflake : Text
snowflake = 226 ∷ 157 ∷ 132 ∷ 239 ∷ 184 ∷ 143 ∷ []

abbrev storm : Text
storm = 226 ∷ 155 ∷ 136 ∷ 239 ∷ 184 ∷ 143 ∷ []

abbrev thermometer : Text
thermometer = 240 ∷ 159 ∷ 140 ∷ 161 ∷ 239 ∷ 184 ∷ 143 ∷ []

unfoldable pub wmo_code_to_desc_icon : ℕ → Text × Text
wmo_code_to_desc_icon code =
    if code == 0
    then (codes "Clear sky", sun)
    else if code == 1
    then (codes "Mainly clear", sun_small_cloud)
    else if code == 2
    then (codes "Partly cloudy", sun_cloud)
    else if code == 3
    then (codes "Overcast", cloud)
    else if code == 45 || code == 48
    then (codes "Foggy", fog)
    else if code == 51
    then (codes "Light drizzle", sun_rain)
    else if code == 53
    then (codes "Moderate drizzle", sun_rain)
    else if code == 55
    then (codes "Dense drizzle", rain)
    else if code == 56 || code == 57
    then (codes "Freezing drizzle", rain)
    else if code == 61
    then (codes "Slight rain", sun_rain)
    else if code == 63
    then (codes "Moderate rain", rain)
    else if code == 65
    then (codes "Heavy rain", rain)
    else if code == 66 || code == 67
    then (codes "Freezing rain", rain)
    else if code == 71
    then (codes "Slight snow", snow)
    else if code == 73
    then (codes "Moderate snow", snow)
    else if code == 75
    then (codes "Heavy snow", snowflake)
    else if code == 77
    then (codes "Snow grains", snowflake)
    else if code == 80
    then (codes "Slight showers", sun_rain)
    else if code == 81
    then (codes "Moderate showers", rain)
    else if code == 82
    then (codes "Violent showers", storm)
    else if code == 85
    then (codes "Slight snow showers", snow)
    else if code == 86
    then (codes "Heavy snow showers", snowflake)
    else if code == 95
    then (codes "Thunderstorm", storm)
    else if code == 96 || code == 99
    then (codes "Thunderstorm with hail", storm)
    else (codes "Unknown", thermometer)
