-- ===== src/Alerts.antt =====
-- `AlertService` of backend/python/services/alert_service.py, and the alerts of one round of
-- `stale_board_monitor` in backend/python/main.py. Posting to the webhook is an argument: it changes
-- a state `N` or raises (`none`). `stamp` is `strftime("%Y-%m-%d %H:%M:%S")`. The log is left out.
pub mod Laws
mod Tests
use intelli_attend_smart_boa.Base.{
  ℕ, String, Bool, true, false, Option, none, some, List, [], ◌∷◌, truthy, ◌^^◌, if◌then◌else◌,
}
use intelli_attend_smart_boa.Dict.{Dict}
use intelli_attend_smart_boa.Json.{Json, text, obj, end, ◌↪◌⨾◌}
use intelli_attend_smart_boa.Models.{Db}
use intelli_attend_smart_boa.Session.Monitor.{latest_from, is_stale}

unfoldable pub stale_message : (ℕ → String) → (board_id : String) → ℕ → String
stale_message stamp board_id last_seen =
    "🚨 *CRITICAL: Heartbeat Lost*\n*Board ID:* `"
    ^^ board_id
    ^^ "`\n*Last Seen:* "
    ^^ stamp last_seen
    ^^ " UTC\n*Status:* DISCONNECTED\nPlease check classroom connectivity or hardware state."

unfoldable pub security_message : (board_id reason : String) → String
security_message board_id reason =
    "🛡\u{fe0f} *SECURITY ALERT: Potential Tampering*\n*Board ID:* `" ^^ board_id ^^ "`\n*Reason:* "
    ^^ reason ^^ "\n*Action:* Access blocked. Investigate hardware integrity."

module _ {N : Type 0} (post : String → Json → N → Option N) (webhook : Option String) where
  -- `if SLACK_WEBHOOK_URL: try: … except Exception: …`
  abbrev pub send : String → N → N
  send message n = elim webhook [
    | none ↦ n
    | some url ↦
        if truthy url
        then elim (post url (obj ("text" ↪ text message ⨾ end)) n) [ none ↦ n | some n' ↦ n' ]
        else n
  ]

  -- `notify_stale_board`
  unfoldable pub notify_stale_board : (ℕ → String) → (board_id : String) → ℕ → N → N
  unfolding stale_message
  notify_stale_board stamp board_id last_seen n = send (stale_message stamp board_id last_seen) n

  -- `notify_security_violation`
  unfoldable pub notify_security_violation : (board_id reason : String) → N → N
  unfolding security_message
  notify_security_violation board_id reason n = send (security_message board_id reason) n

  -- The alerts of the loop over the stale boards, from the times of the latest heartbeats.
  unfoldable pub notify_stale : (ℕ → String) → ℕ → Dict ℕ → N → N
  unfolding notify_stale_board
  notify_stale stamp now [] n = n
  notify_stale stamp now ((board, t) ∷ rest) n =
      notify_stale stamp now rest (if is_stale now t then notify_stale_board stamp board t n else n)

  -- The alerts of a round of the monitor.
  unfoldable pub monitor_alerts : (ℕ → String) → ℕ → Db → N → N
  unfolding notify_stale
  monitor_alerts stamp now db n = notify_stale stamp now (latest_from [] db.heartbeats) n
