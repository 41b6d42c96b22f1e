-- ===== src/Lib.antt =====
-- Verification library of gamwich, the family dashboard: its login and sessions, rewards,
-- notifications, live updates and backups, and its recurrence rules, chores, license checks, rate
-- limiter, grocery categories, tunnel manager and weather cache.
--
-- The parts and their files. `Recurrence` holds the data of internal/recurrence (Rule, Occurrence,
-- iterator); `Recurrence/Rrule` is rrule.go (`parse` is Parse, `to_string` is Rule.String; `Recurrence/Describe` is Rule.Describe) and
-- `Recurrence/Advance` and `Recurrence/Expand` are expand.go: one function for each method of the
-- iterator, which returns the occurrence and the iterator after the call, and `expand` for Expand.
-- `Chore` is internal/chore/status.go, which calls Parse and Expand: `compute_status` is
-- ComputeStatus and `is_due_on_date` is IsDueOnDate. `License` is internal/license/client.go, a
-- client record passed from call to call, and `Billing` is internal/billing/handler/license.go, the
-- endpoint whose replies the client reads. `RateLimit` is internal/middleware/ratelimit.go: `allow`,
-- `cleanup` and `rate_limit` pass on the map of entries. `Grocery` is internal/grocery/categorize.go,
-- with its tables in `Grocery/Exact` and `Grocery/Phrases`. `Tunnel` is internal/tunnel: the manager
-- is a record passed from one section under the mutex to the next, `Tunnel/Run` is its goroutine over the attempts to keep the
-- process up, and `Tunnel/LogParser` is logparser.go. `Weather` is internal/weather/weather.go: the service
-- with its cache (`Weather/Service`) and the table of weather codes (`Weather/Codes`).
--
-- What works on the database is an action of `Sql`: it passes the tables on, and a list of faults says
-- which of its statements fail, so that a theorem about all worlds is one about all failures. `exec`,
-- `query` and `statement` are the statements, `attempt` is Go's look at an error, `otherwise` a default in
-- its place, `transaction` undoes what ends in an error. `Sql/Keeps` is what every action keeps,
-- `Sql/Yields` what every outcome has, `Sql/Faults` the cases of a statement and `Sql/Rows` the lemmas on
-- rows, with `Sql/Sorted` for the first of a sorted selection. `Auth` holds the tables of the login: `Auth/Codes` is internal/store/magic_link.go with
-- validateCode, `Auth/Households` user.go and household.go, `Auth/Sessions` session.go,
-- internal/auth/context.go and internal/middleware/auth.go, and `Auth/Login` and `Auth/Invitations` are
-- internal/handler/auth.go. `Reward` is internal/store/reward.go (`Reward/Store`, `Reward/Balances`) and
-- internal/handler/reward.go (`Reward/Requests`). `Push` is internal/store/push.go and
-- internal/push/scheduler.go. `Hub` is internal/websocket/hub.go with the channel of client.go; each
-- operation under its lock is a step, and a panic is an outcome. `Backup` is internal/store/backup.go
-- (`Backup/Store`), internal/backup/crypto.go (`Backup/Crypto`) and backup.go (`Backup/Runs`): its statements
-- work on the database, and its copies on the main file, to which the checkpoint writes. `Webhook`
-- is the billing service's webhook, internal/billing/handler/webhook.go (`Webhook/Events`), with its stores.
-- `Note` is internal/store/note.go.
--
-- Below them, `Calendar` models what the program uses of Go's package time, in UTC: a time is a
-- number of nanoseconds since the start of the year 0, of which the proleptic Gregorian calendar gives the
-- date (`date_of`, `day_number`, `make_time` for time.Date, `add_date` for AddDate, `sub` for Sub with
-- its saturation). `Calendar/Stamp` is time.Parse and Format for the two layouts of UNTIL. `Text` is
-- a list of bytes with what the program uses of strings and strconv. `Prelude` holds shared names.
--
-- Numbers. An `int` that Parse bounds from below is a natural number, and a duration is a signed number
-- of nanoseconds. Sums of days and nanoseconds do not wrap around: intervals so large that `7*Interval`
-- or a year overflows an int64 are outside the model.
--
-- Fuel. Go's loops without a bound (findNextByDay, advanceMonthly, advanceYearly) take fuel, and a
-- function that runs out of it returns `none`, which so means that the Go call goes on. Two rounds are
-- enough for findNextByDay and five for advanceMonthly unless the interval is a number of whole years.
-- The loop of Expand takes 10001 rounds, one more than the limit of the iterator, which always
-- suffice.
--
-- Assumptions. All times are in UTC, with no daylight saving; ToLower and TrimSpace are those of
-- ASCII texts. What a call does under a mutex is one step; the time of a call is an argument, and so is
-- what other goroutines do to the tunnel's manager between two such steps of UpdateConfig. The license
-- key's row and the format RFC 3339 are parameters of `Billing`, net.SplitHostPort is one of
-- `RateLimit.real_ip`. What an HTTP request or the cloudflared process brings is an input. The channel
-- with which the goroutine of the tunnel says that it has returned is left out: Stop takes what happens
-- while it waits as an argument. The checkpoints that SQLite makes of its own accord are left out, too.
--
-- A table is a list of rows in the order of their ids. What a statement of SQL takes to be now is the
-- time of the call, which is not cut to seconds, and times are compared as numbers. Whether SQLite
-- follows the foreign keys is an argument where the code depends on it. The push service, the object
-- storage, the mail service and the ciphers are third parties: their failures are faults, and the ciphers,
-- the formats of times, the file of a database and the texts of errors are parameters. Random numbers are arguments.
--
-- Not modelled: the stores and handlers of chores, calendar, groceries, settings and family members,
-- the handlers of notes, the checkout and accounts of the billing service, the deletion of users,
-- households and subscriptions, and the schedule of the backups. Page
-- templates, mails, migrations and wiring are I/O.
pub mod Prelude
pub mod Calendar
pub mod Recurrence
pub mod Text
pub mod Sql
pub mod Auth
pub mod Reward
pub mod Push
pub mod Hub
pub mod Backup
pub mod Webhook
pub mod Note
pub mod Chore
pub mod Grocery
pub mod RateLimit
pub mod License
pub mod Billing
pub mod Tunnel
pub mod Weather
