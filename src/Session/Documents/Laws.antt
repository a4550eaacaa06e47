-- ===== src/Session/Documents/Laws.antt =====
-- The sessions in Firestore: what is created is found by its one-time password, and ignition needs
-- the document that `create_active_session` makes.
use intelli_attend_smart_boa.Base.{
  ℕ, String, true, false, none, some, ◌≡◌, refl, ◌∙◌, same, truthy, arith,
}
use intelli_attend_smart_boa.Json.{Json, Fields, text, num, end, ◌↪◌⨾◌, put}
use intelli_attend_smart_boa.Http.{ok, err, crash}
use intelli_attend_smart_boa.Env.{Env}
use intelli_attend_smart_boa.Cache
use intelli_attend_smart_boa.Cache.{Redis, Cache}
use intelli_attend_smart_boa.Cache.Laws.{IsOffline, offline_dict}
use intelli_attend_smart_boa.Session.{
  SessionCreateRequest, session_id_of, cached_otp, otp_of, otp_cache_key, otp_cache_ttl, falsy,
}
use intelli_attend_smart_boa.Session.Documents.{
  Firestore, Docs, session_document, ignited, merge, create_session, find_cached,
  find_session_by_otp, update_document, ignite_session_atomic, create_active_session,
}

module _ {S F : Type 0} (redis : Redis S) (firestore : Firestore F) (env : Env) where
  cached_found :
      (id half1 : String) (doc : Fields) (d : Docs S F)
      → firestore.find "Sessions" id d.documents ≡ some doc
      → truthy id ≡ true
      → truthy half1 ≡ true
      → find_cached redis firestore env true (some (cached_otp id half1)) d
        ≡ (ok (some (put "session_secret_half1" (text half1) (put "session_id" (text id) doc))), d)
  unfolding find_cached falsy same
  cached_found id half1 doc d stored named secret = ground arith

  cached_unfound :
      (id half1 : String) (d : Docs S F)
      → find_cached redis firestore env false (some (cached_otp id half1)) d ≡ (ok none, d)
  unfolding find_cached falsy same
  cached_unfound id half1 d = ground arith

  get_json-set_json :
      (key : String) (v : Json) (ttl : ℕ) (c : Cache S)
      → IsOffline redis c
      → truthy (env.dumps v) ≡ true
      → env.loads (env.dumps v) ≡ some v
      → (Cache.get_json redis env key (Cache.set_json redis env key v ttl c)).0 ≡ some v
  unfolding Cache.get_json Cache.set_json
  get_json-set_json key v ttl c offline written read =
      ground (arith, (offline_dict redis key key (env.dumps v) ttl ttl c offline).0)

  -- Without Redis, and if JSON is read back as it was written, the password of a session that was
  -- created with a client finds that session with the client: its document, with the id and the
  -- secret half put in. Without the client it finds nothing, and in either case no document changes.
  pub find-create_session :
      (d : Docs S F) (now random : ℕ) (hex half1 : String) (q : SessionCreateRequest)
      → IsOffline redis d.cache
      → truthy (session_id_of env now hex q) ≡ true
      → truthy half1 ≡ true
      → truthy (env.dumps (cached_otp (session_id_of env now hex q) half1)) ≡ true
      → env.loads (env.dumps (cached_otp (session_id_of env now hex q) half1))
        ≡ some (cached_otp (session_id_of env now hex q) half1)
      → let d' = (create_session redis firestore env true now hex half1 random q d).1 in
        let (found, d2) = find_session_by_otp redis firestore env true (otp_of random) d' in
        let (unfound, d3) = find_session_by_otp redis firestore env false (otp_of random) d' in
        (found
          ≡ ok (
              some (
                put "session_secret_half1" (text half1) (
                  put "session_id"
                    (text (session_id_of env now hex q))
                    (session_document now half1 q)))))
        × ((unfound ≡ ok none) × ((d2.documents ≡ d'.documents) × (d3.documents ≡ d'.documents)))
  unfolding create_session find_session_by_otp
  find-create_session d now random hex half1 q offline named secret written read =
      let id : String = session_id_of env now hex q in
      let key : String = otp_cache_key (otp_of random) in
      let doc : Fields = session_document now half1 q in
      let d' : Docs S F = record {
        cache = Cache.set_json redis env key (cached_otp id half1) otp_cache_ttl d.cache;
        documents = firestore.set "Sessions" id doc d.documents;
      } in
      let cache : Cache S = (Cache.get_json redis env key d'.cache).1 in
      let held =
        get_json-set_json key (cached_otp id half1) otp_cache_ttl d.cache offline written read in
      let stored = firestore.find-set "Sessions" id doc d.documents in
      let found = cached_found id half1 doc (record d' { cache = cache }) stored named secret in
      let unfound = cached_unfound id half1 (record d' { cache = cache }) in
      rw (find_session_by_otp, held, found, unfound) (refl, (refl, (refl, refl)))

module _ {S F : Type 0} (firestore : Firestore F) where
  -- With both documents, both are ignited.
  ignite_both :
      (now : ℕ) (id : String) (doc active : Fields) (d : Docs S F)
      → firestore.find "Sessions" id d.documents ≡ some doc
      → firestore.find "ActiveSessions" id d.documents ≡ some active
      → ignite_session_atomic firestore true now id d ≡ (
        ok tt,
        record d {
          documents =
              firestore.set "ActiveSessions" id
                (merge (ignited now) active)
                (firestore.set "Sessions" id (merge (ignited now) doc) d.documents);
        },
      )
  unfolding ignite_session_atomic update_document same
  ignite_both now id doc active d h k =
      let new : Fields = merge (ignited now) doc in
      let f : F = firestore.set "Sessions" id new d.documents in
      let kept : firestore.find "ActiveSessions" id f ≡ some active =
        firestore.find-set_other "Sessions" id "ActiveSessions" id new d.documents refl ∙ k in
      ground (
        arith,
        firestore.update_some "Sessions" id (ignited now) doc d.documents h,
        firestore.update_some "ActiveSessions" id (ignited now) active f kept,
      )

  -- With the first only, the first is ignited and an error is raised.
  ignite_first :
      (now : ℕ) (id : String) (doc : Fields) (d : Docs S F)
      → firestore.find "Sessions" id d.documents ≡ some doc
      → firestore.find "ActiveSessions" id d.documents ≡ none
      → ignite_session_atomic firestore true now id d ≡ (
        err crash,
        record d { documents = firestore.set "Sessions" id (merge (ignited now) doc) d.documents },
      )
  unfolding ignite_session_atomic update_document same
  ignite_first now id doc d h k =
      let new : Fields = merge (ignited now) doc in
      let f : F = firestore.set "Sessions" id new d.documents in
      let kept : firestore.find "ActiveSessions" id f ≡ none =
        firestore.find-set_other "Sessions" id "ActiveSessions" id new d.documents refl ∙ k in
      ground (
        arith,
        firestore.update_some "Sessions" id (ignited now) doc d.documents h,
        firestore.update_none "ActiveSessions" id (ignited now) f kept,
      )

module _ {S F : Type 0} (redis : Redis S) (firestore : Firestore F) (env : Env) where
  -- The two updates of the ignition are not atomic. For a session that was just created and has no
  -- document of active sessions, the ignition raises and leaves the session's document active; after
  -- `create_active_session` it succeeds, and both documents are active.
  pub ignite_session_atomic-create_session :
      (d : Docs S F) (now later random : ℕ) (hex half1 : String) (q : SessionCreateRequest)
      → firestore.find "ActiveSessions" (session_id_of env now hex q) d.documents ≡ none
      → let id = session_id_of env now hex q in
        let created = (create_session redis firestore env true now hex half1 random q d).1 in
        let (failed, half) = ignite_session_atomic firestore true later id created in
        let both = (create_active_session firestore true now id half1 created).1 in
        let (done, ignited_both) = ignite_session_atomic firestore true later id both in
        (failed ≡ err crash)
        × ((firestore.find "Sessions" id half.documents
              ≡ some (merge (ignited later) (session_document now half1 q)))
            × ((done ≡ ok tt)
                × ((firestore.find "Sessions" id ignited_both.documents
                      ≡ some (merge (ignited later) (session_document now half1 q)))
                    × (firestore.find "ActiveSessions" id ignited_both.documents
                        ≡ some (
                            "session_secret_half1"
                            ↪ text half1 ⨾ "status"
                            ↪ text "active" ⨾ "created_at"
                            ↪ num now ⨾ "activated_at"
                            ↪ num later ⨾ end)))))
  unfolding create_session create_active_session same
  ignite_session_atomic-create_session d now later random hex half1 q fresh =
      let id : String = session_id_of env now hex q in
      let doc : Fields = session_document now half1 q in
      let created : Docs S F =
        (create_session redis firestore env true now hex half1 random q d).1 in
      let both : Docs S F = (create_active_session firestore true now id half1 created).1 in
      let active : Fields =
        "session_secret_half1"
        ↪ text half1 ⨾ "status"
        ↪ text "pending" ⨾ "created_at"
        ↪ num now ⨾ end in
      let new : Fields = merge (ignited later) doc in
      let f : F = firestore.set "Sessions" id doc d.documents in
      let stored : firestore.find "Sessions" id f ≡ some doc =
        firestore.find-set "Sessions" id doc d.documents in
      let none_active : firestore.find "ActiveSessions" id f ≡ none =
        firestore.find-set_other "Sessions" id "ActiveSessions" id doc d.documents refl ∙ fresh in
      let g : F = firestore.set "ActiveSessions" id active f in
      let stored' : firestore.find "Sessions" id g ≡ some doc =
        firestore.find-set_other "ActiveSessions" id "Sessions" id active f refl ∙ stored in
      let active' : firestore.find "ActiveSessions" id g ≡ some active =
        firestore.find-set "ActiveSessions" id active f in
      let h : F = firestore.set "Sessions" id new g in
      rw
        (
          ignite_first firestore later id doc created stored none_active,
          ignite_both firestore later id doc active both stored' active',
        )
        (
          refl,
          (
            firestore.find-set "Sessions" id new f,
            (
              refl,
              (
                firestore.find-set_other "ActiveSessions" id "Sessions" id
                      (merge (ignited later) active) h refl
                    ∙ firestore.find-set "Sessions" id new g,
                firestore.find-set "ActiveSessions" id (merge (ignited later) active) h,
              ),
            ),
          ),
        )
