-- ===== src/Admin/Commands/Laws.antt =====
-- A power command's delay is in range, and the route's answer tells where the command is.
use intelli_attend_smart_boa.Base.{ℕ, ◌≤◌, String, ◌≡◌, refl, Bool, some, arith, or_else}
use intelli_attend_smart_boa.Json.{Json}
use intelli_attend_smart_boa.Sockets.Boards.{Boards, send_or_queue}
use intelli_attend_smart_boa.Sockets.Boards.Laws.{Placed, send_or_queue_cases}
use intelli_attend_smart_boa.Json.{PyInt, natural, negative}
use intelli_attend_smart_boa.Admin.Commands.{
  clamp_delay, PowerCommandRequest, outcome, power_payload, admin_board_power,
}

-- The delay that a board is told lies between 5 and 600 seconds, whatever integer the admin sends,
-- and is the admin's own number if that lies between them.
pub clamp_delay_bounds :
    (d : PyInt)
    → (5 ≤ clamp_delay d)
      × (clamp_delay d ≤ 600)
      × ((n : ℕ) → d ≡ natural n → 5 ≤ n → n ≤ 600 → clamp_delay d ≡ n)
unfolding clamp_delay
clamp_delay_bounds (natural n) =
    (omega arith, omega arith, λ m e lo hi. let q : n ≡ m = cc in omega arith)
clamp_delay_bounds (negative n) = (omega arith, omega arith, λ m e lo hi. absurd (ground arith))

-- Whatever the power command, the command that leaves the route is the payload built from it, and it
-- is either sent or queued, never both and never neither; the answer says which. It is sent exactly
-- when the board has a socket that takes it, and otherwise it is the last one that waits.
pub admin_board_power_lem :
    (delivers : ℕ → Json → Bool) (board uuid now : String) (c : PowerCommandRequest) (s : Boards)
    → let (answer, t) = admin_board_power delivers board uuid now c s in
      (sent : Bool) × (answer ≡ outcome "command_id" (or_else (some c.command_id) uuid) board sent)
      × Placed delivers board (power_payload uuid now c) s sent t
unfolding admin_board_power
admin_board_power_lem delivers board uuid now c s =
    let payload = power_payload uuid now c in
    ((send_or_queue delivers board payload s).0, refl, send_or_queue_cases delivers board payload s)
