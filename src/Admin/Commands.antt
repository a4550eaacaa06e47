-- ===== src/Admin/Commands.antt =====
-- POST /api/v1/admin/board/{board_id}/power and /notification. `uuid` values are arguments, and
-- `now` is the ISO text of the time. `if data.attachment_url` keeps the attachment out of the
-- payload where it is empty.
pub mod Laws
use intelli_attend_smart_boa.Base.{
  ℕ, String, Bool, true, false, Option, none, some, truthy, or_else, if◌then◌else◌, max, min,
}
use intelli_attend_smart_boa.Json.{
  PyInt, natural, negative, Json, Fields, null, bool, num, text, obj, end, ◌↪◌⨾◌,
}
use intelli_attend_smart_boa.Sockets.Boards.{Boards, send_or_queue}

-- `max(5, min(600, n))`
unfoldable pub clamp_delay : PyInt → ℕ
clamp_delay (natural n) = max 5 (min 600 n)
clamp_delay (negative n) = 5

pub record PowerCommandRequest : Type 0 where
  pub action : String
  pub reason : String
  pub delay_seconds : PyInt
  pub command_id : String

pub record NotificationRequest : Type 0 where
  pub notification_type : String
  pub display_mode : String
  pub priority : String
  pub title : String
  pub body : String
  pub duration_seconds : Option ℕ
  pub requires_acknowledgement : Bool
  pub notification_id : String
  pub attachment_url : String
  pub attachment_name : String
  pub attachment_type : String
  pub attachment_size : ℕ

-- The answer of both routes; `key` names the id.
abbrev pub outcome : (key id board : String) → Bool → Json
outcome key id board sent = obj (
    "status"
    ↪ text (if sent then "sent" else "queued") ⨾ key
    ↪ text id ⨾ "board_id"
    ↪ text board ⨾ "board_online"
    ↪ bool sent ⨾ end)

unfoldable pub power_payload : (uuid now : String) → PowerCommandRequest → Json
unfolding clamp_delay
power_payload uuid now c = obj (
    "type"
    ↪ text "system_command" ⨾ "command_id"
    ↪ text (or_else (some c.command_id) uuid) ⨾ "action"
    ↪ text c.action ⨾ "reason"
    ↪ text c.reason ⨾ "delay_seconds"
    ↪ num (clamp_delay c.delay_seconds) ⨾ "issued_at"
    ↪ text now ⨾ end)

unfoldable pub notification_payload : (uuid event_id now : String) → NotificationRequest → Json
notification_payload uuid event_id now n =
    let attachment : Fields =
      if truthy n.attachment_url
      then "data"
        ↪ obj (
            "attachment_url"
            ↪ text n.attachment_url ⨾ "attachment_name"
            ↪ text n.attachment_name ⨾ "attachment_type"
            ↪ text n.attachment_type ⨾ "attachment_size"
            ↪ num n.attachment_size ⨾ end) ⨾
          end
      else end in
    obj (
      "event_type"
      ↪ text "notification" ⨾ "event_id"
      ↪ text event_id ⨾ "version"
      ↪ num 1 ⨾ "institution_id"
      ↪ text "" ⨾ "timestamp"
      ↪ text now ⨾ "payload"
      ↪ obj (
          "notification_id"
          ↪ text (or_else (some n.notification_id) uuid) ⨾ "version"
          ↪ num 1 ⨾ "priority"
          ↪ text n.priority ⨾ "notification_type"
          ↪ text n.notification_type ⨾ "display_mode"
          ↪ text n.display_mode ⨾ "title"
          ↪ text n.title ⨾ "body"
          ↪ text n.body ⨾ "duration_seconds"
          ↪ elim (n.duration_seconds) [ none ↦ null | some d ↦ num d ] ⨾ "requires_acknowledgement"
          ↪ bool n.requires_acknowledgement ⨾ attachment) ⨾
        end)

module _ (delivers : ℕ → Json → Bool) where
  -- `admin_board_power`
  unfoldable pub admin_board_power :
      (board uuid now : String) → PowerCommandRequest → Boards → Json × Boards
  unfolding power_payload send_or_queue
  admin_board_power board uuid now c s =
      let (sent, s') = send_or_queue delivers board (power_payload uuid now c) s in
      (outcome "command_id" (or_else (some c.command_id) uuid) board sent, s')

  -- `admin_board_notification`
  unfoldable pub admin_board_notification :
      (board uuid event_id now : String) → NotificationRequest → Boards → Json × Boards
  unfolding notification_payload send_or_queue
  admin_board_notification board uuid event_id now n s =
      let (sent, s') = send_or_queue delivers board (notification_payload uuid event_id now n) s in
      (outcome "notification_id" (or_else (some n.notification_id) uuid) board sent, s')
