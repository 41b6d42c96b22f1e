-- ===== src/Recurrence/Describe.antt =====
-- internal/recurrence/rrule.go: `Rule.Describe`, the text that the pages show.
use gamwich.Prelude.{ℕ, List, [], ◌∷◌, ◌++◌, ◌≡◌, refl, ltb, ◌==◌, if◌then◌else◌, none}
use gamwich.Text.{Text, codes, itoa}
use gamwich.Recurrence.{Freq, daily, weekly, monthly, yearly, Rule}

-- The first three letters of the name of a weekday.
abbrev short_name : ℕ → Text
short_name d =
    if d == 0
    then codes "Sun"
    else if d == 1
    then codes "Mon"
    else if d == 2
    then codes "Tue"
    else if d == 3
    then codes "Wed"
    else if d == 4
    then codes "Thu"
    else if d == 5
    then codes "Fri"
    else codes "Sat"

abbrev names : List ℕ → Text
names [] = []
names (d ∷ []) = short_name d
names (d ∷ e ∷ ds) = short_name d ++ codes ", " ++ names (e ∷ ds)

abbrev every : ℕ → Text → Text
every interval unit = codes "Repeats every " ++ itoa interval ++ unit

abbrev weekly_prefix : ℕ → Text
weekly_prefix interval =
    if interval == 2
    then codes "Repeats every 2 weeks"
    else if ltb 2 interval
    then every interval (codes " weeks")
    else codes "Repeats weekly"

abbrev on_days : Text → List ℕ → Text
on_days prefix [] = prefix
on_days prefix (d ∷ ds) = prefix ++ codes " on " ++ names (d ∷ ds)

abbrev describe_as : Rule → Freq → Text
describe_as r daily =
    if ltb 1 r.interval then every r.interval (codes " days") else codes "Repeats daily"
describe_as r weekly = on_days (weekly_prefix r.interval) r.by_day
describe_as r monthly =
    if ltb 1 r.interval then every r.interval (codes " months") else codes "Repeats monthly"
describe_as r yearly =
    if ltb 1 r.interval then every r.interval (codes " years") else codes "Repeats yearly"

unfoldable pub describe : Rule → Text
describe r = describe_as r r.freq

described :
    describe (record {
      freq = weekly;
      interval = 2;
      by_day = 1 ∷ 3 ∷ [];
      by_month_day = 0;
      count = 0;
      until = none;
    })
    ≡ codes "Repeats every 2 weeks on Mon, Wed"
unfolding describe
described = refl
