-- ===== src/Writer/Attempt/Kept.antt =====
-- What provisioning and the cleanup of an attempt leave in the slots of the log.
use baerly_storage.Common.{
  ℕ, ◌≡◌, ap, sym, ◌∙◌, Text, text_eq, text_eq_refl, Bool, true, false, Option, none, some, List,
  All, ◌⊎◌, inl, inr, Bool-cases,
}
use baerly_storage.Errors.{Code, Result, ok, err, write_conflict, Result-cases, >>=-eq-ok}
use baerly_storage.Storage.{MemoryStorage, at, Op, delete_op, apply_op}
use baerly_storage.Storage.Laws.{put-ok, at-store, at-delete}
use baerly_storage.CurrentJson.Bodies.{Body, manifest, CurrentJson, LogEntry}
use baerly_storage.CurrentJson.{create_current_json, assert_current_json, encode_json}
use baerly_storage.CurrentJson.Updates.{write_current-ok}
use baerly_storage.Log.{log_object_key}
use baerly_storage.Log.Keys.{IsPrefix, log_object_key-valid}
use baerly_storage.Writer.Slots.{IsPeer, Unwritten, WrittenAt, run-Unwritten}
use baerly_storage.Writer.Attempt.{
  initial, recovered, provision_current_json, read_or_provision, cleaned,
}

module _ (prefix session : Text) where
  create-Unwritten :
      (s s' : MemoryStorage Body) (key : Text) (json json' : CurrentJson) (etag : ℕ)
      → Unwritten prefix session s
      → create_current_json s key json ≡ ok (s', json', etag)
      → Unwritten prefix session s'
  unfolding create_current_json
  create-Unwritten s s' key json json' etag u h n p e held body =
      let (_, _, w) = >>=-eq-ok (assert_current_json (encode_json json)) _ h in
      let (_, q) = write_current-ok s s' key json json' true none etag w in
      let stored = put-ok s s' key (manifest (encode_json json)) true none etag q in
      let seen : at s' (log_object_key prefix n) ≡ _ =
        ap (λ t. at t (log_object_key prefix n)) stored.0
        ∙ at-store s key (log_object_key prefix n) (manifest (encode_json json)) in
      elim (Bool-cases (text_eq key (log_object_key prefix n))) [
        | inl t ↦ λ q. cc (rw t at seen, held, body)
        | inr t ↦ u n p e (sym (rw t at seen) ∙ held) body
      ]

  recovered-Unwritten :
      (s : MemoryStorage Body) (between : List (Op Body)) (key : Text) (json : CurrentJson)
      → All (IsPeer prefix session) between
      → Unwritten prefix session s
      → Unwritten prefix session (recovered s between key (create_current_json s key json)).0
  unfolding recovered
  recovered-Unwritten s between key json peers u =
      elim (Result-cases (create_current_json s key json)) [
        | inl ((s', json', etag), e) ↦ rw e (create-Unwritten s s' key json json' etag u e)
        | inr (code, e) ↦ rw e (refused code)
      ]
    where
      refused : (code : Code) → Unwritten prefix session (recovered s between key (err code)).0
      refused write_conflict = run-Unwritten prefix session between s peers u
      refused _ = u

  pub read_or_provision-Unwritten :
      (s : MemoryStorage Body) (between : List (Op Body)) (key generation : Text)
      (read : Result (Option (CurrentJson × ℕ)))
      → All (IsPeer prefix session) between
      → Unwritten prefix session s
      → Unwritten prefix session (read_or_provision s between key generation read).0
  unfolding read_or_provision provision_current_json
  read_or_provision-Unwritten s between key generation (err code) peers u = u
  read_or_provision-Unwritten s between key generation (ok (some r)) peers u = u
  read_or_provision-Unwritten s between key generation (ok none) peers u =
      recovered-Unwritten s between key (initial generation) peers u

  delete-Unwritten :
      (s : MemoryStorage Body) (seq : ℕ) (self : LogEntry)
      → IsPrefix prefix
      → WrittenAt prefix session seq self s
      → Unwritten prefix session (apply_op (delete_op (log_object_key prefix seq)) s)
  delete-Unwritten s seq self valid w n p e held body =
      let gone =
        at-delete s (log_object_key prefix seq) (log_object_key prefix n)
          (log_object_key-valid prefix seq valid) in
      elim (Bool-cases (text_eq (log_object_key prefix seq) (log_object_key prefix n))) [
        | inl t ↦ λ q. cc (rw t at gone, held)
        | inr t ↦
            w.only n (λ q. cc (t, log_object_key_refl seq n q)) p e (sym (rw t at gone) ∙ held) body
      ]
    where
      log_object_key_refl :
          (m n : ℕ) → n ≡ m → text_eq (log_object_key prefix m) (log_object_key prefix n) ≡ true
      log_object_key_refl m n q = rw q (text_eq_refl (log_object_key prefix m))

  pub cleaned-either :
      (fails : Bool) (s : MemoryStorage Body) (seq : ℕ) (self : LogEntry)
      → IsPrefix prefix
      → WrittenAt prefix session seq self s
      → Unwritten prefix session (cleaned fails s prefix seq)
        ⊎ WrittenAt prefix session seq self (cleaned fails s prefix seq)
  unfolding cleaned
  cleaned-either true s seq self valid w = inr w
  cleaned-either false s seq self valid w = inl (delete-Unwritten s seq self valid w)
