-- ===== src/Auth.antt =====
-- The tables behind the login: internal/model/{user,household,session}.go and what the migrations
-- 011 and 018 of internal/database say of them. The mails that were sent are a list.
pub mod Codes
pub mod Households
pub mod Sessions
pub mod Login
pub mod Invitations
pub mod Pending
pub mod Guesses
pub mod Members
pub mod Attempts
pub mod Disclosure
pub mod Tests
use gamwich.Prelude.{ℕ, List, Option}
use gamwich.Text.{Text}
use gamwich.Calendar.{Time}
use gamwich.Sql.{Table, World, Action}

pub record User : Type 0 where
  pub id : ℕ
  pub email : Text
  pub name : Text
  pub created_at : Time
  pub updated_at : Time

pub record Household : Type 0 where
  pub id : ℕ
  pub name : Text
  pub created_at : Time
  pub updated_at : Time

pub record HouseholdMember : Type 0 where
  pub id : ℕ
  pub household_id : ℕ
  pub user_id : ℕ
  pub role : Text
  pub created_at : Time
  pub updated_at : Time

pub record Session : Type 0 where
  pub id : ℕ
  pub token : Text
  pub user_id : ℕ
  pub household_id : ℕ
  pub expires_at : Time
  pub created_at : Time

pub record MagicLink : Type 0 where
  pub id : ℕ
  pub token : Text
  pub email : Text
  pub purpose : Text
  pub household_id : Option ℕ
  pub expires_at : Time
  pub used_at : Option Time
  pub attempts : ℕ
  pub created_at : Time

-- A chore area, a grocery category or a grocery list of a new household.
pub record Seed : Type 0 where
  pub name : Text
  pub sort_order : ℕ
  pub household_id : ℕ

pub record Setting : Type 0 where
  pub household_id : ℕ
  pub key : Text
  pub value : Text

pub record Mail : Type 0 where
  pub to : Text
  pub token : Text
  pub purpose : Text
  pub household_name : Text

pub record AuthDb : Type 0 where
  pub users : Table User
  pub households : Table Household
  pub members : Table HouseholdMember
  pub sessions : Table Session
  pub magic_links : Table MagicLink
  pub chore_areas : List Seed
  pub grocery_categories : List Seed
  pub grocery_lists : List Seed
  pub settings : List Setting
  pub outbox : List Mail

abbrev pub AuthAction : Type 0 → Type 0
AuthAction = Action AuthDb
