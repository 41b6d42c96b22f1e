-- ===== src/Auth/Households.antt =====
-- internal/store/user.go and household.go: users, households, their members, and the rows that a new
-- household starts with.
use gamwich.Prelude.{ℕ, suc, Bool, ◌&&◌, Option, List, [], ◌∷◌, ◌++◌, map, ltb, ◌==◌, if◌then◌else◌}
use gamwich.Prelude.Result.{Result, ok, err}
use gamwich.Text.{Text, codes, text_eq, text_lt}
use gamwich.Calendar.{Time}
use gamwich.Sql.{
  DbError, constraint, insert, with_rows, pure, statement, query, exec, transaction, ◌>>=◌, ◌>>◌,
  select, first, exists, update_where, delete_where, order_by, or_failed,
}
use gamwich.Auth.{User, Household, HouseholdMember, Seed, Setting, AuthDb, AuthAction}

-- Users

abbrev user_has_id : ℕ → User → Bool
user_has_id id u = u.id == id

unfoldable pub get_user : ℕ → AuthAction (Option User)
get_user id = query (λ (s : AuthDb). first (user_has_id id) s.users.rows)

unfoldable pub get_user_by_email : Text → AuthAction (Option User)
get_user_by_email email =
    query (λ (s : AuthDb). first (λ (u : User). text_eq u.email email) s.users.rows)

abbrev new_user : Text → Text → Time → ℕ → User
new_user email name now id = record {
  id = id;
  email = email;
  name = name;
  created_at = now;
  updated_at = now;
}

unfoldable pub insert_user : Text → Text → Time → AuthDb → Result DbError ℕ × AuthDb
insert_user email name now s =
    if exists (λ (u : User). text_eq u.email email) s.users.rows
    then (err constraint, s)
    else (ok (suc s.users.last_id), record s { users = insert (new_user email name now) s.users })

unfoldable pub create_user : Text → Text → Time → AuthAction User
create_user email name now = do
  id ← statement (insert_user email name now)
  found ← get_user id
  or_failed found

-- Households

abbrev household_has_id : ℕ → Household → Bool
household_has_id id h = h.id == id

unfoldable pub get_household : ℕ → AuthAction (Option Household)
get_household id = query (λ (s : AuthDb). first (household_has_id id) s.households.rows)

abbrev new_household : Text → Time → ℕ → Household
new_household name now id = record { id = id; name = name; created_at = now; updated_at = now }

abbrev pub insert_household : Text → Time → AuthDb → Result DbError ℕ × AuthDb
insert_household name now s = (
  ok (suc s.households.last_id),
  record s { households = insert (new_household name now) s.households },
)

unfoldable pub create_household : Text → Time → AuthAction Household
create_household name now = do
  id ← statement (insert_household name now)
  found ← get_household id
  or_failed found

-- The trigger of the table keeps the time of an update.
unfoldable pub update_household : ℕ → Text → Time → AuthAction (Option Household)
update_household id name now = do
  exec (λ (s : AuthDb). record s {
    households =
        with_rows
          (update_where (household_has_id id)
            (λ (h : Household). record h { name = name; updated_at = now }) s.households.rows)
          s.households;
  })
  get_household id

-- Members

abbrev pub is_member_row : ℕ → ℕ → HouseholdMember → Bool
is_member_row household_id user_id m = m.household_id == household_id && m.user_id == user_id

unfoldable pub get_member : ℕ → ℕ → AuthAction (Option HouseholdMember)
get_member household_id user_id =
    query (λ (s : AuthDb). first (is_member_row household_id user_id) s.members.rows)

abbrev new_member : ℕ → ℕ → Text → Time → ℕ → HouseholdMember
new_member household_id user_id role now id = record {
  id = id;
  household_id = household_id;
  user_id = user_id;
  role = role;
  created_at = now;
  updated_at = now;
}

unfoldable pub insert_member : ℕ → ℕ → Text → Time → AuthDb → Result DbError ℕ × AuthDb
insert_member household_id user_id role now s =
    if exists (is_member_row household_id user_id) s.members.rows then (err constraint, s) else (
      ok (suc s.members.last_id),
      record s { members = insert (new_member household_id user_id role now) s.members },
    )

unfoldable pub add_member : ℕ → ℕ → Text → Time → AuthAction HouseholdMember
add_member household_id user_id role now = do
  id ← statement (insert_member household_id user_id role now)
  found ← query (λ (s : AuthDb). first (λ (m : HouseholdMember). m.id == id) s.members.rows)
  or_failed found

abbrev pub set_members : List HouseholdMember → AuthDb → AuthDb
set_members rows s = record s { members = with_rows rows s.members }

unfoldable pub remove_member : ℕ → ℕ → AuthAction (Unit {0})
remove_member household_id user_id = exec (λ (s : AuthDb).
    set_members (delete_where (is_member_row household_id user_id) s.members.rows) s)

unfoldable pub update_member_role : ℕ → ℕ → Text → Time → AuthAction (Option HouseholdMember)
update_member_role household_id user_id role now = do
  exec (λ (s : AuthDb).
      set_members
        (update_where (is_member_row household_id user_id)
          (λ (m : HouseholdMember). record m { role = role; updated_at = now }) s.members.rows)
        s)
  get_member household_id user_id

unfoldable pub list_members : ℕ → AuthAction (List HouseholdMember)
list_members household_id = query (λ (s : AuthDb).
    order_by (λ (m n : HouseholdMember). ltb m.created_at n.created_at)
      (select (λ (m : HouseholdMember). m.household_id == household_id) s.members.rows))

-- The households that have a row of the user in their members, by name.
unfoldable pub households_of : ℕ → AuthDb → List Household
households_of user_id s =
    order_by (λ (h k : Household). text_lt h.name k.name)
      (select (λ (h : Household). exists (is_member_row h.id user_id) s.members.rows)
        s.households.rows)

unfoldable pub list_households_for_user : ℕ → AuthAction (List Household)
list_households_for_user user_id = query (households_of user_id)

-- The rows of a new household

abbrev seed : ℕ → Text × ℕ → Seed
seed household_id (name, sort_order) = record {
  name = name;
  sort_order = sort_order;
  household_id = household_id;
}

abbrev same_seed : Seed → Seed → Bool
same_seed a b = text_eq a.name b.name && a.household_id == b.household_id

-- One row after the other, each by a statement; the name is unique in the household.
unfoldable pub seed_rows :
    (AuthDb → List Seed) → (List Seed → AuthDb → AuthDb) → List Seed → AuthAction (Unit {0})
seed_rows get set [] = pure tt
seed_rows get set (r ∷ rs) =
    statement (λ s.
      if exists (same_seed r) (get s)
      then (err constraint, s)
      else (ok tt, set (get s ++ r ∷ []) s))
    >> seed_rows get set rs

abbrev areas : List (Text × ℕ)
areas =
    (codes "Kitchen", 1)
    ∷ (codes "Bathroom", 2)
    ∷ (codes "Bedroom", 3)
    ∷ (codes "Yard", 4)
    ∷ (codes "General", 5)
    ∷ []

abbrev categories : List (Text × ℕ)
categories =
    (codes "Produce", 1)
    ∷ (codes "Dairy", 2)
    ∷ (codes "Meat & Seafood", 3)
    ∷ (codes "Bakery", 4)
    ∷ (codes "Pantry", 5)
    ∷ (codes "Frozen", 6)
    ∷ (codes "Beverages", 7)
    ∷ (codes "Snacks", 8)
    ∷ (codes "Household", 9)
    ∷ (codes "Personal Care", 10)
    ∷ (codes "Other", 11)
    ∷ []

abbrev default_settings : List (Text × Text)
default_settings =
    (codes "idle_timeout_minutes", codes "5")
    ∷ (codes "quiet_hours_enabled", codes "false")
    ∷ (codes "quiet_hours_start", codes "22:00")
    ∷ (codes "quiet_hours_end", codes "06:00")
    ∷ (codes "burn_in_prevention", codes "true")
    ∷ (codes "weather_latitude", [])
    ∷ (codes "weather_longitude", [])
    ∷ (codes "weather_units", codes "fahrenheit")
    ∷ (codes "theme_mode", codes "manual")
    ∷ (codes "theme_selected", codes "garden")
    ∷ (codes "theme_light", codes "garden")
    ∷ (codes "theme_dark", codes "forest")
    ∷ (codes "rewards_leaderboard_enabled", codes "true")
    ∷ []

unfoldable pub seed_settings : ℕ → List (Text × Text) → AuthAction (Unit {0})
seed_settings household_id [] = pure tt
seed_settings household_id ((key, value) ∷ rs) =
    statement (λ (s : AuthDb).
      if exists (λ (r : Setting). r.household_id == household_id && text_eq r.key key) s.settings
      then (err constraint, s)
      else (
        ok tt,
        record s {
          settings =
              s.settings ++ record { household_id = household_id; key = key; value = value } ∷ [];
        },
      ))
    >> seed_settings household_id rs

-- The statements of `SeedDefaults`, the begin and the commit among them.
unfoldable pub seed_statements : ℕ → AuthAction (Unit {0})
seed_statements household_id = do
  exec (λ s. s)
  seed_rows (λ (s : AuthDb). s.chore_areas) (λ rows (s : AuthDb). record s { chore_areas = rows })
      (map (seed household_id) areas)
  seed_rows (λ (s : AuthDb). s.grocery_categories)
      (λ rows (s : AuthDb). record s { grocery_categories = rows })
      (map (seed household_id) categories)
  exec (λ (s : AuthDb). record s {
    grocery_lists = s.grocery_lists ++ seed household_id (codes "Grocery", 0) ∷ [];
  })
  seed_settings household_id default_settings
  exec (λ s. s)

unfoldable pub seed_defaults : ℕ → AuthAction (Unit {0})
seed_defaults household_id = transaction (seed_statements household_id)
