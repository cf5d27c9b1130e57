-- ===== src/Server/Db.antt =====
-- The database of server/db.py. SQLite is not under the repository: a table is the list of its
-- rows, a primary key refuses a second row with `IntegrityError`, and binding a parameter raises
-- for an integer outside 64 bits (OverflowError) and for a string that has no UTF-8 (a ValueError).
-- Foreign keys are declared and not enforced, which is SQLite's default.
pub mod Invariant
pub mod Versions
use crypto_project.Base.{
  ℕ, ◌+◌, ◌^◌, Bool, true, false, ◌&&◌, List, [], ◌∷◌, ◌++◌, length, Option, none, some, ◌===◌,
  ◌==◌, ltb, if◌then◌else◌, Outcome, ok, raise, require, ◌>>=◌, ◌>>◌, value_error, overflow_error,
  ℤ, pos, negsuc,
}
use crypto_project.Text.{Text, encode}
use crypto_project.Server.Tables.{any, find, find_all, update_where, remove_where, order_by}

pub record UserRecord : Type 0 where
  pub username : Text
  pub salt : List ℕ
  pub argon2_t : ℤ
  pub argon2_m : ℤ
  pub argon2_p : ℤ
  pub auth_pub : List ℕ
  pub sig_pub : List ℕ
  pub dh_pub : List ℕ

pub record DocumentRecord : Type 0 where
  pub doc_id : List ℕ
  pub owner : Text
  pub version : ℕ
  pub created_ms : ℕ
  pub blob : List ℕ

pub record ShareRecord : Type 0 where
  pub doc_id : List ℕ
  pub recipient : Text
  pub blob : List ℕ
  pub issued_ms : ℕ

pub record ServerDb : Type 0 where
  pub users : List UserRecord
  pub documents : List DocumentRecord
  pub shares : List ShareRecord

-- The tables of `_SCHEMA`, before any row.
unfoldable pub empty_db : ServerDb
empty_db = record { users = []; documents = []; shares = [] }

unfoldable pub bind_nat : ℕ → Outcome (Unit {0})
bind_nat n = require (ltb n (2 ^ 63)) overflow_error

unfoldable pub bind_int : ℤ → Outcome (Unit {0})
bind_int (pos n) = bind_nat n
bind_int (negsuc n) = bind_nat n

unfoldable pub bind_text : Text → Outcome (Unit {0})
bind_text s = encode s >>= λ _. ok tt

unfoldable pub is_user : Text → UserRecord → Bool
is_user username u = u.username === username

unfoldable pub is_document : List ℕ → DocumentRecord → Bool
is_document doc_id d = d.doc_id === doc_id

unfoldable pub is_share : List ℕ → Text → ShareRecord → Bool
is_share doc_id recipient s = s.doc_id === doc_id && s.recipient === recipient

unfoldable pub create_user : UserRecord → ServerDb → Outcome ServerDb
create_user u db = do
  bind_text u.username
  bind_int u.argon2_t
  bind_int u.argon2_m
  bind_int u.argon2_p
  if any (is_user u.username) db.users
      then raise value_error
      else ok (record db { users = db.users ++ (u ∷ []) })

unfoldable pub get_user : Text → ServerDb → Outcome (Option UserRecord)
get_user username db = do bind_text username; ok (find (is_user username) db.users)

unfoldable pub update_user_auth : Text → List ℕ → ℤ → ℤ → ℤ → List ℕ → ServerDb → Outcome ServerDb
update_user_auth username salt t m p auth_pub db = do
  bind_int t
  bind_int m
  bind_int p
  bind_text username
  if any (is_user username) db.users
      then ok (record db {
        users =
            update_where (is_user username)
              (λ u. record u {
                salt = salt;
                argon2_t = t;
                argon2_m = m;
                argon2_p = p;
                auth_pub = auth_pub;
              })
              db.users;
      })
      else raise value_error

unfoldable pub create_document : DocumentRecord → ServerDb → Outcome ServerDb
create_document d db = do
  require (d.version == 1) value_error
  bind_text d.owner
  bind_nat d.version
  bind_nat d.created_ms
  if any (is_document d.doc_id) db.documents
      then raise value_error
      else ok (record db { documents = db.documents ++ (d ∷ []) })

-- The test of the version, once the row was read.
unfoldable pub check_next : DocumentRecord → Option DocumentRecord → Outcome (Unit {0})
check_next d none = raise value_error
check_next d (some row) = require (d.version == row.version + 1) value_error

unfoldable pub update_document : DocumentRecord → ServerDb → Outcome ServerDb
update_document d db = do
  check_next d (find (is_document d.doc_id) db.documents)
  bind_nat d.version
  bind_nat d.created_ms
  ok (record db {
    documents =
        update_where (is_document d.doc_id)
          (λ row. record row { version = d.version; created_ms = d.created_ms; blob = d.blob })
          db.documents;
  })

unfoldable pub get_document : List ℕ → ServerDb → Option DocumentRecord
get_document doc_id db = find (is_document doc_id) db.documents

unfoldable pub list_documents_owned_by : Text → ServerDb → Outcome (List DocumentRecord)
list_documents_owned_by owner db = do
  bind_text owner
  ok (order_by (λ d. d.created_ms) (find_all (λ d. d.owner === owner) db.documents))

unfoldable pub create_or_replace_share : ShareRecord → ServerDb → Outcome ServerDb
create_or_replace_share s db = do
  bind_text s.recipient
  bind_nat s.issued_ms
  ok (record db { shares = remove_where (is_share s.doc_id s.recipient) db.shares ++ (s ∷ []) })

unfoldable pub get_share : List ℕ → Text → ServerDb → Outcome (Option ShareRecord)
get_share doc_id recipient db = do
  bind_text recipient
  ok (find (is_share doc_id recipient) db.shares)

unfoldable pub list_shares_for : Text → ServerDb → Outcome (List ShareRecord)
list_shares_for recipient db = do
  bind_text recipient
  ok (order_by (λ s. s.issued_ms) (find_all (λ s. s.recipient === recipient) db.shares))

unfoldable pub dump_stats : ServerDb → ℕ × ℕ × ℕ
dump_stats db = (length db.users, length db.documents, length db.shares)
