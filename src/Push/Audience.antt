-- ===== src/Push/Audience.antt =====
-- internal/push/scheduler.go: who is notified.
use mathlib.Core.List.{append_assoc, append-nil}
use gamwich.Prelude.{
  ℕ, ◌≡◌, refl, sym, ◌∙◌, inl, inr, Bool, true, false, List, [], ◌∷◌, ◌++◌, ◌==◌, Bool-cases, All,
  All-append, arith,
}
use gamwich.Prelude.Result.{Result, ok, err}
use gamwich.Text.{Text}
use gamwich.Sql.{DbError, World, pure, attempt, otherwise, ◌>>=◌}
use gamwich.Sql.Faults.{later, query-cases}
use gamwich.Sql.Keeps.{
  Keeps, Keeps-pure, Keeps-statement, Keeps-exec, Keeps-otherwise, Keeps-attempt, Keeps->>=,
  Keeps->>,
}
use gamwich.Sql.Rows.{All-select, All-order_by}
use gamwich.Push.{PushSubscription, Payload, Delivery, PushDb, grocery_added}
use gamwich.Push.Store.{
  preference_in, is_preference_enabled, subscribers, list_by_household, delete_by_endpoint,
}
use gamwich.Push.Scheduler.{
  Sent, accepted, expired, send, send_via, after_send, notify, notify_others, grocery_payload,
  send_grocery_notification,
}

-- A notification for a subscription of the household, of another user, who has not turned it off.
abbrev pub IsFor : ℕ → ℕ → PushDb → Delivery → Type 0
IsFor household_id exclude_user_id s d =
    (d.subscription.household_id ≡ household_id)
    × ((d.subscription.user_id == exclude_user_id) ≡ false)
    × (preference_in d.subscription.user_id household_id grocery_added s ≡ true)

-- The preferences are as they were, and what has been delivered since is for its audience.
pub record Audience (household_id exclude_user_id : ℕ) (before s : PushDb) : Type 0 where
  pub preferences : s.preferences ≡ before.preferences
  pub new : List Delivery
  pub deliveries : s.deliveries ≡ before.deliveries ++ new
  pub audience : All (IsFor household_id exclude_user_id before) new

module _ (gone : Text → Bool) (household_id exclude_user_id : ℕ) (before : PushDb) where
  abbrev P : PushDb → Type 0
  P s = Audience household_id exclude_user_id before s

  Keeps-delete : (endpoint : Text) → Keeps P (delete_by_endpoint endpoint)
  unfolding delete_by_endpoint
  Keeps-delete endpoint = Keeps-exec P _ (λ s h. record {
    preferences = h.preferences;
    new = h.new;
    deliveries = h.deliveries;
    audience = h.audience;
  })

  Keeps-after_send : (endpoint : Text) (r : Result DbError Sent) → Keeps P (after_send endpoint r)
  Keeps-after_send endpoint (ok accepted) = Keeps-pure P tt
  Keeps-after_send endpoint (ok expired) = Keeps-otherwise P tt _ (Keeps-delete endpoint)
  Keeps-after_send endpoint (err e) = Keeps-pure P tt

  Keeps-send :
      (sub : PushSubscription) (payload : Payload)
      → IsFor household_id exclude_user_id before (record { subscription = sub; payload = payload })
      → Keeps P (send gone sub payload)
  unfolding send send_via
  Keeps-send sub payload k = Keeps-statement P _ (λ s h. elim (Bool-cases (gone sub.endpoint)) [
    | inl p ↦ rw p h
    | inr p ↦ rw p (record {
      preferences = h.preferences;
      new = h.new ++ record { subscription = sub; payload = payload } ∷ [];
      deliveries = rw h.deliveries (append_assoc _ h.new _);
      audience = All-append (IsFor household_id exclude_user_id before) h.new _ h.audience (k, tt);
    })
  ])

  preference_in-before :
      (user_id : ℕ) (s : PushDb)
      → P s
      → preference_in user_id household_id grocery_added s
        ≡ preference_in user_id household_id grocery_added before
  unfolding preference_in
  preference_in-before user_id s h = rw h.preferences

  Keeps-notify :
      (payload : Payload) (sub : PushSubscription)
      → sub.household_id ≡ household_id
      → (sub.user_id == exclude_user_id) ≡ false
      → Keeps P (notify gone household_id grocery_added payload sub)
  unfolding notify is_preference_enabled otherwise ◌>>=◌ pure
  Keeps-notify payload sub ours other = record {
    keeps = λ w h. elim (query-cases (preference_in sub.user_id household_id grocery_added) w) [
      | inl x ↦ rw x h
      | inr x ↦ elim (Bool-cases (preference_in sub.user_id household_id grocery_added w.0)) [
        | inl p ↦
            rw (x, p)
              ((Keeps->>= P (attempt (send gone sub payload)) (after_send sub.endpoint)
                  (Keeps-attempt P _ (
                    Keeps-send sub payload
                      (ours, other, sym (preference_in-before sub.user_id w.0 h) ∙ p)))
                  (Keeps-after_send sub.endpoint)).keeps
                (w.0, later w) h)
        | inr p ↦ rw (x, p) h
      ]
    ];
  }

  Keeps-notify_others :
      (payload : Payload) (subs : List PushSubscription)
      → All (λ (sub : PushSubscription). sub.household_id ≡ household_id) subs
      → Keeps P (notify_others gone household_id exclude_user_id payload subs)
  Keeps-notify_others payload [] hs = Keeps-pure P tt
  Keeps-notify_others payload (sub ∷ subs) (h, hs) =
      Keeps->> P _ _
        (elim (Bool-cases (sub.user_id == exclude_user_id)) [
          | inl p ↦ rw p (Keeps-pure P tt)
          | inr p ↦ rw p (Keeps-notify payload sub h p)
        ])
        (Keeps-notify_others payload subs hs)

subscribers-household :
    (household_id : ℕ) (s : PushDb)
    → All (λ (sub : PushSubscription). sub.household_id ≡ household_id) (subscribers household_id s)
subscribers-household household_id s =
    let Ours = λ (sub : PushSubscription). sub.household_id ≡ household_id in
    All-order_by Ours _ _ (All-select Ours _ s.subscriptions.rows (λ sub m h. ground arith))

-- However the statements and the sending fare, the notification of a new grocery item reaches
-- subscriptions of the household alone, none of the user who added it, and none of a user who has
-- turned these notifications off.
pub send_grocery_notification-Audience :
    (gone : Text → Bool) (household_id exclude_user_id : ℕ) (item_name : Text) (w : World PushDb)
    → Audience household_id exclude_user_id w.0
        (send_grocery_notification gone household_id exclude_user_id item_name w).1.0
unfolding send_grocery_notification list_by_household otherwise ◌>>=◌
send_grocery_notification-Audience gone household_id exclude_user_id item_name w =
    let start : Audience household_id exclude_user_id w.0 w.0 = record {
      preferences = refl;
      new = [];
      deliveries = sym (append-nil w.0.deliveries);
      audience = tt;
    } in
    elim (query-cases (subscribers household_id) w) [
      | inl x ↦ rw x start
      | inr x ↦ rw x (
          (Keeps-notify_others gone household_id exclude_user_id w.0 (grocery_payload item_name) _
              (subscribers-household household_id w.0)).keeps
            (w.0, later w) start)
    ]
