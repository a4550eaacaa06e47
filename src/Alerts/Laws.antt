-- ===== src/Alerts/Laws.antt =====
-- What arrives at the webhook.
use intelli_attend_smart_boa.Base.{
  ℕ, String, Bool, true, Option, none, some, List, [], ◌∷◌, ◌++◌, ◌≡◌, sym, ◌∙◌, truthy,
  if◌then◌else◌, keep, inl, inr, Bool-cases, append_assoc, append-nil,
}
use intelli_attend_smart_boa.Dict.{Dict}
use intelli_attend_smart_boa.Json.{Json, text, obj, end, ◌↪◌⨾◌}
use intelli_attend_smart_boa.Models.{Db}
use intelli_attend_smart_boa.Session.Monitor.{latest_from, is_stale}
use intelli_attend_smart_boa.Alerts.{
  stale_message, notify_stale_board, notify_stale, monitor_alerts,
}

-- The body of an alert.
abbrev pub alert_of : (ℕ → String) → (String × ℕ) → Json
alert_of stamp (board, t) = obj ("text" ↪ text (stale_message stamp board t) ⨾ end)

-- The alerts of the stale boards, in the order of the boards.
abbrev pub alerts : (ℕ → String) → ℕ → Dict ℕ → List Json
alerts stamp now [] = []
alerts stamp now ((board, t) ∷ rest) =
    if is_stale now t
    then alert_of stamp (board, t) ∷ alerts stamp now rest
    else alerts stamp now rest

-- A webhook that takes some messages and refuses the others.
abbrev pub inbox : (Json → Bool) → String → Json → List Json → Option (List Json)
inbox takes url message received = if takes message then some (received ++ message ∷ []) else none

notify_stale-inbox :
    (takes : Json → Bool) (url : String) (stamp : ℕ → String) (now : ℕ) (d : Dict ℕ)
    (received : List Json)
    → truthy url ≡ true
    → notify_stale (inbox takes) (some url) stamp now d received
      ≡ received ++ keep takes (alerts stamp now d)
unfolding notify_stale notify_stale_board
notify_stale-inbox takes url stamp now [] received h = sym (append-nil received)
notify_stale-inbox takes url stamp now ((board, t) ∷ d) received h =
    let m : Json = alert_of stamp (board, t) in
    elim (Bool-cases (is_stale now t)) [
      | inr e ↦ rw (e, notify_stale) (notify_stale-inbox takes url stamp now d received h)
      | inl e ↦ elim (Bool-cases (takes m)) [
        | inl f ↦
            rw (e, notify_stale, notify_stale_board, h, f)
              (notify_stale-inbox takes url stamp now d (received ++ m ∷ []) h
                ∙ append_assoc received (m ∷ []) (keep takes (alerts stamp now d)))
        | inr f ↦
            rw (e, notify_stale, notify_stale_board, h, f)
              (notify_stale-inbox takes url stamp now d received h)
      ]
    ]

-- A round of the monitor posts one alert for each stale board, in order; an alert that the webhook
-- refuses is lost, and keeps none of the others from being posted.
pub monitor_alerts-inbox :
    (takes : Json → Bool) (url : String) (stamp : ℕ → String) (now : ℕ) (db : Db)
    (received : List Json)
    → truthy url ≡ true
    → monitor_alerts (inbox takes) (some url) stamp now db received
      ≡ received ++ keep takes (alerts stamp now (latest_from [] db.heartbeats))
unfolding monitor_alerts
monitor_alerts-inbox takes url stamp now db received h =
    notify_stale-inbox takes url stamp now (latest_from [] db.heartbeats) received h
