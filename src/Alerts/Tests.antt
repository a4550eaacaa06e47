-- ===== src/Alerts/Tests.antt =====
-- Runs of the alerts.
use intelli_attend_smart_boa.Base.{Bool, true, none, some, [], ◌∷◌, ◌≡◌, refl, same}
use intelli_attend_smart_boa.Json.{Json, text, obj, end, ◌↪◌⨾◌}
use intelli_attend_smart_boa.Alerts.{stale_message, security_message, notify_security_violation}
use intelli_attend_smart_boa.Alerts.Laws.{inbox}

abbrev all : Json → Bool
all message = true

-- Without a webhook, and with an empty one, nothing is posted.
silent_run : notify_security_violation (inbox all) none "IASB-1" "clone" [] ≡ []
unfolding notify_security_violation
silent_run = refl

empty_run : notify_security_violation (inbox all) (some "") "IASB-1" "clone" [] ≡ []
unfolding notify_security_violation same
empty_run = refl

posted_run :
    notify_security_violation (inbox all) (some "https://hook") "IASB-1" "clone" []
    ≡ obj ("text" ↪ text (security_message "IASB-1" "clone") ⨾ end) ∷ []
unfolding notify_security_violation same
posted_run = refl

message_run :
    stale_message (λ t. "2026-01-05 08:00:00") "IASB-1" 7
    ≡ "🚨 *CRITICAL: Heartbeat Lost*\n*Board ID:* `IASB-1`\n*Last Seen:* 2026-01-05 08:00:00 UTC\n*Status:* DISCONNECTED\nPlease check classroom connectivity or hardware state."
unfolding stale_message
message_run = refl
