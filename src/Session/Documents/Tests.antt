-- ===== src/Session/Documents/Tests.antt =====
-- Runs of the sessions in Firestore.
use intelli_attend_smart_boa.Base.{
  String, true, false, Option, none, some, [], ◌≡◌, refl, ◌&&◌, same, same_refl, if◌then◌else◌,
}
use intelli_attend_smart_boa.Json.{Fields, text, num, end, ◌↪◌⨾◌, put}
use intelli_attend_smart_boa.Http.{ok, err, crash}
use intelli_attend_smart_boa.Env.{Env}
use intelli_attend_smart_boa.Fixtures.{test_env, no_redis as redis}
use intelli_attend_smart_boa.Session.{SessionCreateRequest, otp_of, cached_otp}
use intelli_attend_smart_boa.Session.Documents.{
  Firestore, Docs, session_document, ignited, merge, create_session, find_session_by_otp,
  ignite_session_atomic, create_active_session, redis_key,
}
use intelli_attend_smart_boa.Session.Documents.Laws.{
  find-create_session, ignite_session_atomic-create_session,
}

abbrev Store : Type 0
Store = String → String → Option Fields

abbrev find_in : String → String → Store → Option Fields
find_in c i f = f c i

abbrev set_in : String → String → Fields → Store → Store
set_in c i doc f = λ d j. if same c d && same i j then some doc else f d j

abbrev update_in : String → String → Fields → Store → Option Store
update_in c i new f = elim (f c i) [ none ↦ none | some old ↦ some (set_in c i (merge new old) f) ]

find_in-set_in :
    (c i : String) (doc : Fields) (f : Store) → find_in c i (set_in c i doc f) ≡ some doc
find_in-set_in c i doc f = rw (same_refl c, same_refl i) refl

find_in-set_in_other :
    (c i d j : String) (doc : Fields) (f : Store)
    → (same c d && same i j) ≡ false
    → find_in d j (set_in c i doc f) ≡ find_in d j f
find_in-set_in_other c i d j doc f h = rw h refl

abbrev firestore : Firestore Store
firestore = record {
  find = find_in;
  set = set_in;
  update = update_in;
  find-set = find_in-set_in;
  find-set_other = find_in-set_in_other;
  update_none = λ c i new f h. rw (update_in, h) refl;
  update_some = λ c i new old f h. rw (update_in, h) refl;
}

abbrev no_documents : Store
no_documents c i = none

abbrev docs : Docs String Store
docs = record {
  cache = record { client = false; local = []; server = "" };
  documents = no_documents;
}

abbrev course : SessionCreateRequest
course = record {
  course_name = "Logic";
  faculty_name = "Dr. Rao";
  section_id = "CSE-A";
  roster_count = 60;
  slot_id = none;
}

-- JSON of the one value that the runs store.
abbrev env : Env
env = record test_env { dumps = λ v. "{...}"; loads = λ s. some (cached_otp "SESS_0A1B" "aGFsZg") }

abbrev created : Docs String Store
created = (create_session redis firestore env true 100 "0A1B" "aGFsZg" 23456 course docs).1

find-create_session_example :
    let (found, d2) = find_session_by_otp redis firestore env true (otp_of 23456) created in
    let (unfound, d3) = find_session_by_otp redis firestore env false (otp_of 23456) created in
    (found
      ≡ ok (
          some (
            put "session_secret_half1"
              (text "aGFsZg")
              (put "session_id" (text "SESS_0A1B") (session_document 100 "aGFsZg" course)))))
    × ((unfound ≡ ok none)
        × ((d2.documents ≡ created.documents) × (d3.documents ≡ created.documents)))
unfolding same
find-create_session_example =
    find-create_session redis firestore env docs 100 23456 "0A1B" "aGFsZg" course (refl, refl) refl
      refl refl refl

ignite_session_atomic-create_session_example :
    let (failed, half) = ignite_session_atomic firestore true 200 "SESS_0A1B" created in
    let both = (create_active_session firestore true 100 "SESS_0A1B" "aGFsZg" created).1 in
    let (done, ignited_both) = ignite_session_atomic firestore true 200 "SESS_0A1B" both in
    (failed ≡ err crash)
    × ((firestore.find "Sessions" "SESS_0A1B" half.documents
          ≡ some (merge (ignited 200) (session_document 100 "aGFsZg" course)))
        × ((done ≡ ok tt)
            × ((firestore.find "Sessions" "SESS_0A1B" ignited_both.documents
                  ≡ some (merge (ignited 200) (session_document 100 "aGFsZg" course)))
                × (firestore.find "ActiveSessions" "SESS_0A1B" ignited_both.documents
                    ≡ some (
                        "session_secret_half1"
                        ↪ text "aGFsZg" ⨾ "status"
                        ↪ text "active" ⨾ "created_at"
                        ↪ num 100 ⨾ "activated_at"
                        ↪ num 200 ⨾ end)))))
ignite_session_atomic-create_session_example =
    ignite_session_atomic-create_session redis firestore env docs 100 200 23456 "0A1B" "aGFsZg"
      course refl

-- Without a client the ignition does nothing.
ignite_offline_run : ignite_session_atomic firestore false 200 "SESS_0A1B" docs ≡ (ok tt, docs)
unfolding ignite_session_atomic
ignite_offline_run = refl

redis_key_run : redis_key "SESS_0A1B" ≡ "session_secret:SESS_0A1B"
unfolding redis_key
redis_key_run = refl
