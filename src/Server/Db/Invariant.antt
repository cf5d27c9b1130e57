-- ===== src/Server/Db/Invariant.antt =====
-- What every database has that was made by the operations: its primary keys are unique, and no
-- document has version 0.
use mathlib.Core.Path.{subst}
use crypto_project.Base.{
  ℕ, ◌+◌, ◌≤◌, Bool, false, ◌&&◌, List, [], ◌∷◌, ◌++◌, Option, none, some, ◌===◌, ===_sym, ◌==◌,
  ==_iff, All, Outcome, ok, require, >>=-eq-ok, >>-eq-ok, require-eq-ok, if-eq-ok, if-eq-ok_then,
  value_error, ℤ, ◌≡◌, refl, ap₂, arith,
}
use crypto_project.Text.{Text}
use crypto_project.Server.Tables.{any, find, update_where, remove_where}
use crypto_project.Server.Tables.Keys.{
  Distinct, All-append_one, All-update_where, append-Distinct, remove_where-Distinct,
  update_where-Distinct, any-removed,
}
use crypto_project.Server.Db.{
  UserRecord, DocumentRecord, ShareRecord, ServerDb, empty_db, bind_nat, bind_int, bind_text,
  is_user, is_document, is_share, create_user, update_user_auth, create_document, check_next,
  update_document, create_or_replace_share,
}

unfoldable pub same_user : UserRecord → UserRecord → Bool
same_user a b = b.username === a.username

unfoldable pub same_document : DocumentRecord → DocumentRecord → Bool
same_document a b = b.doc_id === a.doc_id

unfoldable pub same_share : ShareRecord → ShareRecord → Bool
same_share a b = b.doc_id === a.doc_id && b.recipient === a.recipient

pub record IsWellFormed (db : ServerDb) : Type 0 where
  pub users_unique : Distinct same_user db.users
  pub documents_unique : Distinct same_document db.documents
  pub shares_unique : Distinct same_share db.shares
  pub versions_start : All (λ d. 1 ≤ d.version) db.documents

-- The operations that change the database.
pub data Statement : Type 0 where
  insert_user : UserRecord → Statement
  update_auth : Text → List ℕ → ℤ → ℤ → ℤ → List ℕ → Statement
  insert_document : DocumentRecord → Statement
  replace_document : DocumentRecord → Statement
  put_share : ShareRecord → Statement

unfoldable pub execute : Statement → ServerDb → Outcome ServerDb
execute (insert_user u) db = create_user u db
execute (update_auth username salt t m p auth_pub) db =
    update_user_auth username salt t m p auth_pub db
execute (insert_document d) db = create_document d db
execute (replace_document d) db = update_document d db
execute (put_share s) db = create_or_replace_share s db

pub created-users :
    (u : UserRecord) (db db' : ServerDb)
    → create_user u db ≡ ok db'
    → (bind_text u.username ≡ ok tt)
      × (any (is_user u.username) db.users ≡ false)
      × (record db { users = db.users ++ (u ∷ []) } ≡ db')
unfolding create_user
created-users u db db' h =
    let (_, bound, h1) = >>=-eq-ok (bind_text u.username) _ h in
    let (free, same) = if-eq-ok (any (is_user u.username) db.users) value_error _ (
      >>-eq-ok (bind_int u.argon2_p) _
        (>>-eq-ok (bind_int u.argon2_m) _ (>>-eq-ok (bind_int u.argon2_t) _ h1))) in
    (bound, free, same)

create_user-IsWellFormed :
    (u : UserRecord) (db db' : ServerDb)
    → create_user u db ≡ ok db'
    → IsWellFormed db
    → IsWellFormed db'
unfolding same_user is_user
create_user-IsWellFormed u db db' h w =
    let (_, free, same) = created-users u db db' h in
    subst IsWellFormed same (record {
      users_unique =
          append-Distinct same_user (λ a b. ===_sym b.username a.username) db.users u w.users_unique
            free;
      documents_unique = w.documents_unique;
      shares_unique = w.shares_unique;
      versions_start = w.versions_start;
    })

update_user_auth-IsWellFormed :
    (username : Text) (salt : List ℕ) (t m p : ℤ) (auth_pub : List ℕ) (db db' : ServerDb)
    → update_user_auth username salt t m p auth_pub db ≡ ok db'
    → IsWellFormed db
    → IsWellFormed db'
unfolding update_user_auth same_user
update_user_auth-IsWellFormed username salt t m p auth_pub db db' h w =
    let (_, same) = if-eq-ok_then (any (is_user username) db.users) value_error _ (
      >>-eq-ok (bind_text username) _
        (>>-eq-ok (bind_int p) _ (>>-eq-ok (bind_int m) _ (>>-eq-ok (bind_int t) _ h)))) in
    subst IsWellFormed same (record {
      users_unique =
          update_where-Distinct same_user (is_user username) _ db.users (λ a b. refl) (λ a b. refl)
            w.users_unique;
      documents_unique = w.documents_unique;
      shares_unique = w.shares_unique;
      versions_start = w.versions_start;
    })

create_document-IsWellFormed :
    (d : DocumentRecord) (db db' : ServerDb)
    → create_document d db ≡ ok db'
    → IsWellFormed db
    → IsWellFormed db'
unfolding create_document same_document is_document
create_document-IsWellFormed d db db' h w =
    let (_, first, h1) = >>=-eq-ok (require (d.version == 1) value_error) _ h in
    let one = (==_iff d.version 1).0 (require-eq-ok (d.version == 1) value_error first) in
    let (free, same) = if-eq-ok (any (is_document d.doc_id) db.documents) value_error _ (
      >>-eq-ok (bind_nat d.created_ms) _
        (>>-eq-ok (bind_nat d.version) _ (>>-eq-ok (bind_text d.owner) _ h1))) in
    subst IsWellFormed same (record {
      users_unique = w.users_unique;
      documents_unique =
          append-Distinct same_document (λ a b. ===_sym b.doc_id a.doc_id) db.documents d
            w.documents_unique free;
      shares_unique = w.shares_unique;
      versions_start =
          All-append_one (λ d. 1 ≤ d.version) db.documents d w.versions_start (omega (arith, one));
    })

check_next-eq-ok :
    (d : DocumentRecord) (row : Option DocumentRecord) {u : Unit {0}}
    → check_next d row ≡ ok u
    → (old : DocumentRecord) × (row ≡ some old) × (d.version ≡ old.version + 1)
unfolding check_next
check_next-eq-ok d none h = cc
check_next-eq-ok d (some old) h = (
  old,
  refl,
  (==_iff d.version (old.version + 1)).0
      (require-eq-ok (d.version == old.version + 1) value_error h),
)

pub updated-documents :
    (d : DocumentRecord) (db db' : ServerDb)
    → update_document d db ≡ ok db'
    → (old : DocumentRecord) × (find (is_document d.doc_id) db.documents ≡ some old)
      × (d.version ≡ old.version + 1)
      × (record db {
        documents =
            update_where
              (is_document d.doc_id)
              (λ row. record row { version = d.version; created_ms = d.created_ms; blob = d.blob })
              db.documents;
      }
          ≡ db')
unfolding update_document
updated-documents d db db' h =
    let (_, checked, h1) =
      >>=-eq-ok (check_next d (find (is_document d.doc_id) db.documents)) _ h in
    let (old, found, next) =
      check_next-eq-ok d (find (is_document d.doc_id) db.documents) checked in
    (old, found, next, cc (>>-eq-ok (bind_nat d.created_ms) _ (>>-eq-ok (bind_nat d.version) _ h1)))

update_document-IsWellFormed :
    (d : DocumentRecord) (db db' : ServerDb)
    → update_document d db ≡ ok db'
    → IsWellFormed db
    → IsWellFormed db'
unfolding same_document
update_document-IsWellFormed d db db' h w =
    let (old, _, next, same) = updated-documents d db db' h in
    subst IsWellFormed same (record {
      users_unique = w.users_unique;
      documents_unique =
          update_where-Distinct same_document (is_document d.doc_id) _ db.documents (λ a b. refl)
            (λ a b. refl) w.documents_unique;
      shares_unique = w.shares_unique;
      versions_start =
          All-update_where (λ d. 1 ≤ d.version) (is_document d.doc_id) _ db.documents
            (λ x. omega (arith, next)) w.versions_start;
    })

create_or_replace_share-IsWellFormed :
    (s : ShareRecord) (db db' : ServerDb)
    → create_or_replace_share s db ≡ ok db'
    → IsWellFormed db
    → IsWellFormed db'
unfolding create_or_replace_share same_share is_share
create_or_replace_share-IsWellFormed s db db' h w =
    let same = >>-eq-ok (bind_nat s.issued_ms) _ (>>-eq-ok (bind_text s.recipient) _ h) in
    subst IsWellFormed (cc same) (record {
      users_unique = w.users_unique;
      documents_unique = w.documents_unique;
      shares_unique =
          append-Distinct same_share
            (λ a b.
              ap₂ (λ x y. x && y) (===_sym b.doc_id a.doc_id) (===_sym b.recipient a.recipient))
            (remove_where (is_share s.doc_id s.recipient) db.shares) s
            (remove_where-Distinct same_share (is_share s.doc_id s.recipient) db.shares
              w.shares_unique)
            (any-removed (is_share s.doc_id s.recipient) db.shares);
      versions_start = w.versions_start;
    })

-- Every operation that changes the database, and returns, keeps its primary keys unique and its
-- document versions at 1 or more.
pub execute-IsWellFormed :
    (c : Statement) (db db' : ServerDb) → execute c db ≡ ok db' → IsWellFormed db → IsWellFormed db'
unfolding execute
execute-IsWellFormed (insert_user u) db db' h w = create_user-IsWellFormed u db db' h w
execute-IsWellFormed (update_auth username salt t m p auth_pub) db db' h w =
    update_user_auth-IsWellFormed username salt t m p auth_pub db db' h w
execute-IsWellFormed (insert_document d) db db' h w = create_document-IsWellFormed d db db' h w
execute-IsWellFormed (replace_document d) db db' h w = update_document-IsWellFormed d db db' h w
execute-IsWellFormed (put_share s) db db' h w = create_or_replace_share-IsWellFormed s db db' h w

pub empty_db-IsWellFormed : IsWellFormed empty_db
unfolding empty_db Distinct
empty_db-IsWellFormed = record {
  users_unique = tt;
  documents_unique = tt;
  shares_unique = tt;
  versions_start = tt;
}
