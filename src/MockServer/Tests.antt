-- ===== src/MockServer/Tests.antt =====
-- Runs of the mock backend.
use intelli_attend_smart_boa.Base.{
  ℕ, String, true, false, some, List, [], ◌∷◌, ◌≡◌, refl, same, starts_with, split,
}
use intelli_attend_smart_boa.Dict.{lookup}
use intelli_attend_smart_boa.Json.{text, obj, end, ◌↪◌⨾◌}
use intelli_attend_smart_boa.Http.{crash, ok, err}
use intelli_attend_smart_boa.Fixtures.{test_env as env}
use intelli_attend_smart_boa.MockServer.{
  MockStore, fresh, success, board_entry, new_tokens, startup, get_preflight, register_login,
  register_verify, register_complete, refresh_token,
}
use intelli_attend_smart_boa.MockServer.Requests.{Request, Event, serve_all}
use intelli_attend_smart_boa.MockServer.Laws.{registration_completes}
use intelli_attend_smart_boa.MockServer.Reached.{holds, registered, reached_store}

abbrev plain : String → String
plain s = s

abbrev clock : ℕ → ℕ
clock k = 1_700_000_000_000_000

abbrev random : ℕ → String
random k = "a1b2"

abbrev seeded : MockStore
seeded = startup env plain clock random

abbrev request : Request → Event
request r = record { request = r; clock = clock; random = random }

-- Requests of another board, and one that raises.
abbrev others : List Event
others =
    request (Request.login "IASB-77" "secret")
    ∷ request (Request.preflight "slot_1")
    ∷ request (Request.verify "IASB-77" "000000")
    ∷ []

registration_completes_example :
    let s1 = serve_all env plain others (register_login 5 "IASB-12" "secret" seeded).1 in
    let (verified, s2) = register_verify "c3d4" "IASB-12" "123456" s1 in
    let (completed, s3) =
      register_complete env plain clock random "IASB-12" "c3d4" "hw"
        (serve_all env plain others s2) in
    (verified ≡ ok (success (obj ("verification_token" ↪ text "c3d4" ⨾ end))))
    × ((completed ≡ ok (success (obj (new_tokens env plain clock random "IASB-12"))))
        × ((lookup "IASB-12" s3.tokens ≡ some (new_tokens env plain clock random "IASB-12"))
            × (lookup "IASB-12" s3.boards
                ≡ some (
                    board_entry "IASB-12" "Room 12"
                      ("hardware_id" ↪ text "hw" ⨾ "firmware_version" ↪ text "v5.4" ⨾ end)))))
unfolding split same
registration_completes_example =
    registration_completes env plain seeded "IASB-12" "secret" "hw" "c3d4" "12" 5 clock random
      others others refl refl refl refl

reached_store_example :
    let s = serve_all env plain others (startup env plain clock random) in
    (s.sessions ≡ []) × ((s.heartbeats ≡ []) × (registered "IASB-77" s ≡ true))
reached_store_example = reached_store env plain "IASB-77" clock random others

-- The handlers that ask for the headers of `None` raise.
preflight_run : (get_preflight 5 "secret" "slot_1" seeded).0 ≡ err crash
unfolding get_preflight
preflight_run = refl

-- Without a dash in the id the tokens are stored, and the board is not.
complete_run :
    let (r, s) =
      register_complete env plain clock random "BOARD" "c3d4" "hw"
        (record fresh { registration_tokens = ("BOARD", "c3d4") ∷ [] }) in
    (r ≡ err crash) × ((holds "BOARD" s.tokens ≡ true) × (holds "BOARD" s.boards ≡ false))
unfolding register_complete split same
complete_run = (refl, (refl, refl))

-- Every text that starts so is a refresh token, also of a board that never registered.
refresh_run :
    (refresh_token env plain clock "u" (obj ("refresh_token" ↪ text "rt_" ⨾ end)) fresh).1 ≡ fresh
unfolding refresh_token same starts_with
refresh_run = refl
