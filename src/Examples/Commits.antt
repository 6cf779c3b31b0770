-- ===== src/Examples/Commits.antt =====
-- A commit against another writer, with an acknowledgement that gets lost.
use baerly_storage.Common.{
  get_or, length, All, zero, suc, ℕ, ◌≡◌, refl, ap, ◌∙◌, Text, codes, true, false, none, some, List,
  [], ◌∷◌, arith,
}
use baerly_storage.Common.Texts.{text_eq, text_lt}
use baerly_storage.Errors.{Result}
use baerly_storage.Json.{end}
use baerly_storage.Storage.{
  MemoryStorage, empty_storage, at, map_get, Op, put_op, run, split_slash, has_dot_segment,
}
use baerly_storage.CurrentJson.Bodies.{Body, entry, LogEntry, LogOp}
use baerly_storage.Log.Lsn.{count_key, str2uint_desc}
use baerly_storage.Log.Lsn.Order.{count_key-Order, str2uint_desc-count_key}
use baerly_storage.Log.{log_object_key}
use baerly_storage.Log.Fold.{doc_get, fold_log_entries_onto}
use baerly_storage.Log.Fold.Last.{last_image, doc_get-fold_log_entries_onto}
use baerly_storage.Writer.{CommitInput, mint_entry, Round, resent, ack_lost, commit_loop}
use baerly_storage.Writer.Slots.{IsPeer, Unwritten, run-Unwritten}
use baerly_storage.Writer.Rounds.{PeersOnly}
use baerly_storage.Writer.Once.{Committed, commit_loop-Committed}
use baerly_storage.Writer.Attempt.{Course, single_attempt_commit}
use baerly_storage.Writer.Attempt.Acknowledged.{
  IsCourse, Attempted, single_attempt_commit-Attempted,
}

abbrev an_input : CommitInput
an_input = record {
  op = LogOp.update;
  collection = codes "c";
  doc_id = codes "d";
  body = some end;
  origin = none;
}

abbrev our_session : Text
our_session = codes "us"

abbrev mint : ℕ → LogEntry
mint = mint_entry an_input (codes "t") (codes "now") our_session

abbrev their_create : Op Body
their_create =
    put_op (log_object_key (codes "app") 8)
      (entry (mint_entry an_input (codes "t") (codes "now") (codes "they") 8)) true none

their_create-IsPeer : IsPeer (codes "app") our_session their_create
unfolding mint_entry
their_create-IsPeer = record {
  foreign = λ k e c m q h.
      let theirs : mint_entry an_input (codes "t") (codes "now") (codes "they") 8 ≡ e = cc (q) in
      let clash : codes "they" ≡ our_session = ap (λ x. x.session) theirs ∙ h in
      absurd (ground (arith, clash));
  leaves = λ n q. refl;
}

abbrev a_log : MemoryStorage Body
a_log = run (their_create ∷ []) empty_storage

a_log-Unwritten : Unwritten (codes "app") our_session a_log
unfolding at map_get
a_log-Unwritten =
    run-Unwritten (codes "app") our_session (their_create ∷ []) empty_storage
      (their_create-IsPeer, tt) (λ n p e held body. cc)

abbrev two_rounds : List Round
two_rounds =
    record {
      send = resent;
      read_fails = false;
      before_create = [];
      before_read = [];
      before_probe = [];
    }
    ∷ record {
      send = ack_lost;
      read_fails = false;
      before_create = [];
      before_read = [];
      before_probe = [];
    }
    ∷ []

commit_loop-Committed_example :
    (s : MemoryStorage Body) × (result : Result (ℕ × LogEntry)) × (commit_loop mint
        (codes "app")
        two_rounds
        a_log
        8
        99999
      ≡ some (s, result))
    × Committed (codes "app") our_session mint s result
unfolding mint_entry has_dot_segment split_slash text_eq
commit_loop-Committed_example =
    commit_loop-Committed (codes "app") our_session refl mint two_rounds a_log 8 99999 (λ n. refl)
      ((tt, tt, tt), ((tt, tt, tt), tt)) a_log-Unwritten (omega arith) (omega arith)

a_round : Round
a_round = record {
  send = ack_lost;
  read_fails = false;
  before_create = [];
  before_read = [];
  before_probe = [];
}

a_round-PeersOnly : PeersOnly (codes "app") our_session a_round
unfolding a_round
a_round-PeersOnly = (tt, tt, tt)

rounds_of : ℕ → List Round
rounds_of zero = []
rounds_of (suc n) = a_round ∷ rounds_of n

length-rounds_of : (n : ℕ) → length (rounds_of n) ≡ n
unfolding rounds_of
length-rounds_of zero = refl
length-rounds_of (suc n) = ap suc (length-rounds_of n)

rounds_of-PeersOnly : (n : ℕ) → All (PeersOnly (codes "app") our_session) (rounds_of n)
unfolding rounds_of
rounds_of-PeersOnly zero = tt
rounds_of-PeersOnly (suc n) = (a_round-PeersOnly, rounds_of-PeersOnly n)

abbrev a_course : Course
a_course = record {
  before_provision = [];
  before_recovery = [];
  before_tail = their_create ∷ [];
  rounds = rounds_of 100001;
  before_check = [];
  check_fails = false;
  delete_fails = true;
}

a_course-IsCourse : IsCourse (codes "app") our_session a_course
a_course-IsCourse = record {
  provision = tt;
  recovery = tt;
  tail = (their_create-IsPeer, tt);
  peers = rounds_of-PeersOnly 100001;
  check = tt;
  enough = omega (arith, length-rounds_of 100001);
}

single_attempt_commit-Attempted_example :
    Attempted (codes "app") our_session mint a_course (codes "app/current.json") (
      single_attempt_commit mint a_course a_log
        (codes "app/current.json")
        (codes "app")
        (codes "0f"))
unfolding mint_entry has_dot_segment split_slash text_eq
single_attempt_commit-Attempted_example =
    single_attempt_commit-Attempted (codes "app") our_session mint a_course a_log
      (codes "app/current.json") (codes "0f") refl (λ n. refl) a_course-IsCourse a_log-Unwritten

doc_get-fold_log_entries_onto_example :
    doc_get (codes "d") (fold_log_entries_onto (codes "c") none (mint 8 ∷ mint 9 ∷ []) [])
    ≡ get_or (last_image (codes "c") none (codes "d") (mint 8 ∷ mint 9 ∷ [])) none
unfolding doc_get
doc_get-fold_log_entries_onto_example =
    doc_get-fold_log_entries_onto (codes "c") none (mint 8 ∷ mint 9 ∷ []) [] (codes "d")

count_key-Order_example :
    (length (count_key 7) ≡ 11)
    × (length (count_key 8) ≡ 11)
    × (text_lt (count_key 8) (count_key 7) ≡ true)
count_key-Order_example = count_key-Order 7 8 (omega arith) (omega arith)

str2uint_desc-count_key_example : str2uint_desc (count_key 8) 53 ≡ 8
str2uint_desc-count_key_example = str2uint_desc-count_key 8 (omega arith)
