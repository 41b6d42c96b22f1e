-- ===== src/Push/Once.antt =====
-- internal/push/scheduler.go: a notification that is recorded is not sent again.
use gamwich.Prelude.{
  ℕ, ◌≡◌, refl, sym, ap, ◌∙◌, inl, inr, Bool, true, none, some, List, [], ◌∷◌, ◌==◌, Bool-cases,
  Option-cases, All, arith,
}
use gamwich.Prelude.Result.{ok}
use gamwich.Text.{Text}
use gamwich.Text.Equality.{text_eq_refl}
use gamwich.Calendar.{Time}
use gamwich.Sql.{pure, statement, query, exec, attempt, otherwise, ◌>>=◌, ◌>>◌, exists}
use gamwich.Sql.Rows.{some-injective, exists-append, exists-snoc}
use gamwich.Push.{
  PushSubscription, Reminded, Payload, PushDb, PushAction, calendar_reminder, chore_due,
}
use gamwich.Push.Store.{
  is_same, sent_row, add_sent, record_sent, was_sent, subscribers, list_by_household,
  delete_by_endpoint, is_preference_enabled, preference_in, upcoming, list_upcoming_with_reminders,
}
use gamwich.Push.Scheduler.{
  send, send_via, notify, notify_all, deliver, event_ref, reminder_payload, remind, remind_all,
  window_end, check_calendar_reminders, minute_of, chore_ref, chore_payload, with_chores,
  check_chore_due,
}

-- A run in which no statement fails: how it ends, and what it leaves as it was.
record Calm (m : PushAction (Unit {0})) (s : PushDb) : Type 0 where
  after : PushDb
  runs : m (s, []) ≡ (ok tt, (after, []))
  sent : after.sent ≡ s.sent
  events : after.events ≡ s.events

module _ (gone : Text → Bool) (household_id : ℕ) (kind : Text) (payload : Payload) where
  notify-Calm :
      (sub : PushSubscription) (s : PushDb) → Calm (notify gone household_id kind payload sub) s
  unfolding notify is_preference_enabled query statement otherwise ◌>>=◌ pure attempt send send_via
      delete_by_endpoint exec
  notify-Calm sub s = elim (Bool-cases (preference_in sub.user_id household_id kind s)) [
    | inr p ↦ record { after = s; runs = rw p; sent = refl; events = refl }
    | inl p ↦ elim (Bool-cases (gone sub.endpoint)) [
      | inl q ↦ record {
        after = (delete_by_endpoint sub.endpoint (s, [])).1.0;
        runs = rw (p, q);
        sent = refl;
        events = refl;
      }
      | inr q ↦ record {
        after = (send_via gone sub payload s).1;
        runs = rw (p, q);
        sent = rw q;
        events = rw q;
      }
    ]
  ]

  notify_all-Calm :
      (subs : List PushSubscription) (s : PushDb)
      → Calm (notify_all gone household_id kind payload subs) s
  unfolding notify_all ◌>>=◌ ◌>>◌ pure
  notify_all-Calm [] s = record { after = s; runs = refl; sent = refl; events = refl }
  notify_all-Calm (sub ∷ subs) s =
      let one = notify-Calm sub s in
      let rest = notify_all-Calm subs one.after in
      record {
        after = rest.after;
        runs = rw one.runs rest.runs;
        sent = rest.sent ∙ one.sent;
        events = rest.events ∙ one.events;
      }

abbrev WasSent : ℕ → Text → Text → ℕ → PushDb → Type 0
WasSent household_id kind ref_id lead_time s =
    exists (is_same household_id kind ref_id lead_time) s.sent ≡ true

sent_row-is_same :
    (household_id : ℕ) (kind ref_id : Text) (lead_time : ℕ) (now : Time)
    → is_same household_id kind ref_id lead_time (sent_row household_id kind ref_id lead_time now)
      ≡ true
sent_row-is_same household_id kind ref_id lead_time now =
    let k = text_eq_refl kind in let r = text_eq_refl ref_id in ground (arith, k, r)

-- A run in which no statement fails, which may record notifications.
record Recording (m : PushAction (Unit {0})) (s : PushDb) : Type 0 where
  after : PushDb
  runs : m (s, []) ≡ (ok tt, (after, []))
  keeps : (h : ℕ) (k r : Text) (l : ℕ) → WasSent h k r l s → WasSent h k r l after
  events : after.events ≡ s.events

module _ (household_id : ℕ) (kind ref_id : Text) (lead_time : ℕ) (now : Time) where
  add_sent-WasSent :
      (s : PushDb)
      → WasSent household_id kind ref_id lead_time
          (add_sent household_id kind ref_id lead_time now s)
  unfolding add_sent
  add_sent-WasSent s =
      elim (Bool-cases (exists (is_same household_id kind ref_id lead_time) s.sent)) [
        | inl p ↦ rw p p
        | inr p ↦
            rw p (exists-snoc _ s.sent _ (sent_row-is_same household_id kind ref_id lead_time now))
      ]

  add_sent-keeps :
      (s : PushDb) (h : ℕ) (k r : Text) (l : ℕ)
      → WasSent h k r l s
      → WasSent h k r l (add_sent household_id kind ref_id lead_time now s)
  unfolding add_sent
  add_sent-keeps s h k r l m =
      elim (Bool-cases (exists (is_same household_id kind ref_id lead_time) s.sent)) [
        | inl p ↦ rw p m
        | inr p ↦ rw p (exists-append _ s.sent _ m)
      ]

  add_sent-events :
      (s : PushDb) → (add_sent household_id kind ref_id lead_time now s).events ≡ s.events
  unfolding add_sent
  add_sent-events s =
      elim (Bool-cases (exists (is_same household_id kind ref_id lead_time) s.sent)) [
        | inl p ↦ rw p
        | inr p ↦ rw p
      ]

  deliver-Recording :
      (gone : Text → Bool) (payload : Payload) (subs : List PushSubscription) (s : PushDb)
      → (d : Recording (deliver gone household_id kind ref_id lead_time now payload (ok subs)) s)
        × WasSent household_id kind ref_id lead_time d.after
  unfolding ◌>>=◌ ◌>>◌ otherwise record_sent exec statement
  deliver-Recording gone payload subs s =
      let c = notify_all-Calm gone household_id kind payload subs s in
      (
        record {
          after = add_sent household_id kind ref_id lead_time now c.after;
          runs = rw c.runs;
          keeps = λ h k r l m. add_sent-keeps c.after h k r l (rw c.sent m);
          events = add_sent-events c.after ∙ c.events;
        },
        add_sent-WasSent c.after,
      )

-- The reminder of an event is recorded, if it has one.
abbrev IsRecorded : ℕ → PushDb → Reminded → Type 0
IsRecorded household_id s e =
    (lead_time : ℕ)
    → e.reminder_minutes ≡ some lead_time
    → WasSent household_id calendar_reminder (event_ref e.id) lead_time s

module _ (gone : Text → Bool) (household_id : ℕ) (now : Time) where
  remind-idle :
      (e : Reminded) (s : PushDb)
      → IsRecorded household_id s e
      → remind gone household_id now e (s, []) ≡ (ok tt, (s, []))
  unfolding remind pure ◌>>=◌ attempt was_sent query statement
  remind-idle e s k = elim (Option-cases e.reminder_minutes) [
    | inl p ↦ rw p
    | inr (l, p) ↦ rw (p, k l p)
  ]

  remind-Recording :
      (e : Reminded) (s : PushDb)
      → (d : Recording (remind gone household_id now e) s) × IsRecorded household_id d.after e
  unfolding remind pure ◌>>=◌ attempt was_sent query statement list_by_household
  remind-Recording e s = elim (Option-cases e.reminder_minutes) [
    | inl p ↦ (
      record { after = s; runs = rw p; keeps = λ h k r l m. m; events = refl },
      λ l q. let bad : none ≡ some l = sym p ∙ q in cc,
    )
    | inr (l, p) ↦
        elim (Bool-cases
          (exists (is_same household_id calendar_reminder (event_ref e.id) l) s.sent)) [
            | inl q ↦ (
              record { after = s; runs = rw (p, q); keeps = λ h k r l m. m; events = refl },
              λ k t. rw (sym (some-injective l k (sym p ∙ t))) q,
            )
            | inr q ↦
                let d =
                  deliver-Recording household_id calendar_reminder (event_ref e.id) l now gone
                    (reminder_payload e l) (subscribers household_id s) s in
                (
                  record {
                    after = d.0.after;
                    runs = rw (p, q) d.0.runs;
                    keeps = d.0.keeps;
                    events = d.0.events;
                  },
                  λ k t. rw (sym (some-injective l k (sym p ∙ t))) d.1,
                )
          ]
  ]

  remind_all-idle :
      (es : List Reminded) (s : PushDb)
      → All (IsRecorded household_id s) es
      → remind_all gone household_id now es (s, []) ≡ (ok tt, (s, []))
  unfolding remind_all pure ◌>>=◌ ◌>>◌
  remind_all-idle [] s hs = refl
  remind_all-idle (e ∷ es) s (h, hs) = rw (remind-idle e s h) (remind_all-idle es s hs)

  remind_all-Recording :
      (es : List Reminded) (s : PushDb)
      → (d : Recording (remind_all gone household_id now es) s) × All
          (IsRecorded household_id d.after)
          es
  unfolding remind_all pure ◌>>=◌ ◌>>◌
  remind_all-Recording [] s =
      (record { after = s; runs = refl; keeps = λ h k r l m. m; events = refl }, tt)
  remind_all-Recording (e ∷ es) s =
      let one = remind-Recording e s in
      let rest = remind_all-Recording es one.0.after in
      (
        record {
          after = rest.0.after;
          runs = rw one.0.runs rest.0.runs;
          keeps = λ h k r l m. rest.0.keeps h k r l (one.0.keeps h k r l m);
          events = rest.0.events ∙ one.0.events;
        },
        (λ l q. rest.0.keeps household_id calendar_reminder (event_ref e.id) l (one.1 l q), rest.1),
      )

-- Where no statement fails, a second look at the calendar for the same household at the same time
-- changes nothing: no reminder is sent again, and none is recorded twice.
pub check_calendar_reminders-idempotent :
    (gone : Text → Bool) (household_id : ℕ) (now : Time) (s : PushDb)
    → let again = check_calendar_reminders gone household_id now (s, []) in
      check_calendar_reminders gone household_id now again.1 ≡ (ok tt, again.1)
unfolding check_calendar_reminders list_upcoming_with_reminders query statement otherwise ◌>>=◌
check_calendar_reminders-idempotent gone household_id now s =
    let es = upcoming now (window_end now) s in
    let d = remind_all-Recording gone household_id now es s in
    let same : upcoming now (window_end now) d.0.after ≡ es = rw d.0.events in
    rw (d.0.runs, same, remind_all-idle gone household_id now es d.0.after d.1)

module _ (gone : Text → Bool) (day : Time → Text) (household_id : ℕ) where
  check_chore_due-idle :
      (now : Time) (s : PushDb)
      → WasSent household_id chore_due (chore_ref day now) 0 s
      → check_chore_due gone day household_id now (s, []) ≡ (ok tt, (s, []))
  unfolding check_chore_due was_sent query statement pure ◌>>=◌ attempt
  check_chore_due-idle now s h = elim (Bool-cases (minute_of now == 0)) [
    | inl p ↦ rw (p, h)
    | inr p ↦ rw p
  ]

  check_chore_due-Recording :
      (now : Time) (s : PushDb) (c : Text) (cs : List Text)
      → (minute_of now == 0) ≡ true
      → s.chores ≡ c ∷ cs
      → (d : Recording (check_chore_due gone day household_id now) s) × WasSent household_id
          chore_due
          (chore_ref day now)
          0
          d.after
  unfolding check_chore_due was_sent query statement pure ◌>>=◌ attempt list_by_household
  check_chore_due-Recording now s c cs on_hour some_chores =
      elim (Bool-cases (exists (is_same household_id chore_due (chore_ref day now) 0) s.sent)) [
        | inl q ↦
            (record { after = s; runs = rw (on_hour, q); keeps = λ h k r l m. m; events = refl }, q)
        | inr q ↦
            let d =
              deliver-Recording household_id chore_due (chore_ref day now) 0 now gone
                (chore_payload (c ∷ cs)) (subscribers household_id s) s in
            (
              record {
                after = d.0.after;
                runs =
                    rw (on_hour, q)
                      (ap
                          (λ t.
                            with_chores gone household_id now (chore_ref day now) (ok t) (s, []))
                          some_chores
                        ∙ d.0.runs);
                keeps = d.0.keeps;
                events = d.0.events;
              },
              d.1,
            )
      ]

-- Where no statement fails and there are chores, a look at them at the start of an hour is the last
-- one of its day that does anything for the household: each later one leaves the database as it is.
pub check_chore_due-once :
    (gone : Text → Bool) (day : Time → Text) (household_id : ℕ) (now moment : Time) (s : PushDb)
    (c : Text) (cs : List Text)
    → (minute_of now == 0) ≡ true
    → s.chores ≡ c ∷ cs
    → day moment ≡ day now
    → let first_look = check_chore_due gone day household_id now (s, []) in
      check_chore_due gone day household_id moment first_look.1 ≡ (ok tt, first_look.1)
check_chore_due-once gone day household_id now moment s c cs on_hour some_chores same =
    let d = check_chore_due-Recording gone day household_id now s c cs on_hour some_chores in
    rw d.0.runs (check_chore_due-idle gone day household_id moment d.0.after (rw same d.1))
