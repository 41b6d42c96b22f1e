-- ===== src/Auth/Tests.antt =====
-- Runs of the login at concrete inputs.
use gamwich.Prelude.{◌≡◌, ◌≢◌, refl, false, none, some, List, [], ◌∷◌, arith}
use gamwich.Prelude.Result.{ok}
use gamwich.Text.{Text, codes, itoa, digits}
use gamwich.Calendar.{Time}
use gamwich.Sql.{
  Table, statement, query, exec, pure, attempt, or_failed, ◌>>=◌, ◌>>◌, select, first, exists,
  update_where, order_by, insert_row,
}
use gamwich.Auth.{User, Household, HouseholdMember, Session, MagicLink, AuthDb}
use gamwich.Auth.Codes.{
  create_link, validate_code, generate_code, insert_link, new_link, get_latest_by_email, mark_used,
  is_pending_for, accepted,
}
use gamwich.Auth.Households.{get_member}
use gamwich.Auth.Sessions.{AuthContext, served, require_auth, require_admin, is_admin, get_session}
use gamwich.Auth.Attempts.{guess_all, guess_all-rejects}
use gamwich.Auth.Guesses.{Accepts, validate_code-Accepts}
use gamwich.Auth.Members.{Entitled, require_auth-Entitled, require_admin-admin}
use gamwich.Auth.Pending.{OnePending, create_link-OnePending}

abbrev address : Text
address = codes "a@b.c"

abbrev user : User
user = record { id = 1; email = address; name = []; created_at = 0; updated_at = 0 }

abbrev house : Household
house = record { id = 4; name = codes "Home"; created_at = 0; updated_at = 0 }

abbrev admin_row : HouseholdMember
admin_row = record {
  id = 1;
  household_id = 4;
  user_id = 1;
  role = codes "admin";
  created_at = 0;
  updated_at = 0;
}

abbrev sess : Session
sess = record {
  id = 9;
  token = codes "ff";
  user_id = 1;
  household_id = 4;
  expires_at = 90;
  created_at = 0;
}

abbrev link : MagicLink
link = record {
  id = 3;
  token = codes "123456";
  email = address;
  purpose = codes "login";
  household_id = none;
  expires_at = 50;
  used_at = none;
  attempts = 0;
  created_at = 0;
}

abbrev table : {A : Type 0} → List A → Table A
table rows = record { rows = rows; last_id = 9 }

abbrev db : AuthDb
db = record {
  users = table (user ∷ []);
  households = table (house ∷ []);
  members = table (admin_row ∷ []);
  sessions = table (sess ∷ []);
  magic_links = table (link ∷ []);
  chore_areas = [];
  grocery_categories = [];
  grocery_lists = [];
  settings = [];
  outbox = [];
}

-- The right code is accepted.
right_code : (validate_code address (codes "123456") 5 (db, [])).0 ≡ ok (accepted link)
unfolding validate_code get_latest_by_email mark_used exec query statement attempt pure ◌>>=◌ ◌>>◌
    select order_by insert_row update_where
right_code = refl

validate_code-Accepts_example :
    Accepts address
      (codes "123456")
      5
      link
      db
      (validate_code address (codes "123456") 5 (db, [])).1.0
validate_code-Accepts_example =
    validate_code-Accepts address (codes "123456") 5 link (db, []) right_code

abbrev guesses : List (Time × Text)
guesses = (5, codes "1") ∷ (7, codes "2") ∷ (7, codes "3") ∷ (20, codes "4") ∷ (30, codes "5") ∷ []

one_pending : select (λ (l : MagicLink). is_pending_for address 5 l) (link ∷ []) ≡ link ∷ []
unfolding select
one_pending = refl

guess_all-rejects_example :
    (validate_code address (codes "123456") 40 (guess_all address guesses db, [])).0
    ≢ ok (accepted link)
guess_all-rejects_example =
    guess_all-rejects address 5 40 guesses db link refl one_pending
      (omega arith, (omega arith, (omega arith, (omega arith, (omega arith, omega arith)))))
      ((refl, refl), ((refl, refl), ((refl, refl), ((refl, refl), ((refl, refl), tt)))))
      (omega arith) (codes "123456") link

abbrev context : AuthContext
context = record { user_id = 1; household_id = 4; role = codes "admin"; session_id = 9 }

let_in : (require_auth false (codes "ff") 5 (db, [])).0 ≡ ok (served (some context))
unfolding require_auth get_session get_member query statement attempt pure ◌>>=◌ first
let_in = refl

require_auth-Entitled_example :
    (ac : AuthContext) × (some context ≡ some ac) × Entitled (codes "ff") 5 db ac
require_auth-Entitled_example =
    require_auth-Entitled false (codes "ff") 5 (db, []) (some context) let_in

as_admin : require_admin (some context) ≡ served (some context)
unfolding require_admin is_admin
as_admin = refl

require_admin-admin_example :
    (ac : AuthContext) × (some context ≡ some ac)
    × Entitled (codes "ff") 5 db ac
    × (ac.role ≡ codes "admin")
require_admin-admin_example =
    require_admin-admin false (codes "ff") 5 (db, []) (some context) (some context) let_in as_admin

abbrev no_links : AuthDb
no_links = record db { magic_links = table [] }

no_links-OnePending : OnePending 5 no_links
unfolding select
no_links-OnePending = record { one = λ email. omega arith }

create_link-OnePending_example :
    OnePending 5 (create_link 42 address (codes "login") none 5 (no_links, [])).1.0
create_link-OnePending_example =
    (create_link-OnePending 42 address (codes "login") none 5).keeps (no_links, [])
      no_links-OnePending

-- The link of a login is made of the random number.
link_token :
    (create_link 42 address (codes "login") none 5 (no_links, [])).0
    ≡ ok (new_link (codes "100042") address (codes "login") none 5 10)
unfolding create_link generate_code insert_link new_link exec query statement pure or_failed ◌>>=◌
    ◌>>◌ update_where exists first itoa digits
link_token = refl
