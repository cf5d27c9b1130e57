-- ===== src/Server/Moves/Histories.antt =====
-- What holds of the server after any requests, in any order.
use mathlib.Core.Path.{subst}
use crypto_project.Base.{ℕ, ℤ, true, List, [], ◌∷◌, some, Outcome, ok, >>=-eq-ok, ◌≡◌, refl, sym}
use crypto_project.Text.{Text}
use crypto_project.Wire.{MsgType}
use crypto_project.Wire.Json.{Fields}
use crypto_project.Server.Session.{is_member}
use crypto_project.Server.Session.Replay.{Call, perform, perform-keeps}
use crypto_project.Server.Db.{
  ServerDb, UserRecord, DocumentRecord, bind_text, get_user, get_document,
}
use crypto_project.Server.Db.Invariant.{IsWellFormed, Statement, execute-IsWellFormed}
use crypto_project.Server.Db.Invariant as Db
use crypto_project.Server.Service.{Server}
use crypto_project.Server.Handlers.{Env, respond}
use crypto_project.Server.Moves.{IsServed, calls, writes, Moves, stay, move, Moves-trans}
use crypto_project.Server.Moves.Requests.{respond-Moves}
use crypto_project.Server.Moves.Kept.{execute-document, HasKeys, execute-HasKeys}

pub record Request : Type 0 where
  pub env : Env
  pub msg_type : MsgType
  pub payload : Fields

-- The server after it has answered the requests, one after the other.
unfoldable pub after : (Text → Outcome ℤ) → List Request → Server → Server
after int_of [] s = s
after int_of (r ∷ rs) s = after int_of rs (respond int_of r.env r.msg_type r.payload s).1

pub after-Moves :
    (int_of : Text → Outcome ℤ) (rs : List Request) (s : Server) → Moves s (after int_of rs s)
unfolding after
after-Moves int_of [] s = stay
after-Moves int_of (r ∷ rs) s =
    Moves-trans (respond-Moves int_of r.env r.msg_type r.payload s)
      (after-Moves int_of rs (respond int_of r.env r.msg_type r.payload s).1)

-- A property of servers that calls and statements keep holds after all moves.
module _ (P : Server → Type 0)
    (kept_by_calls : (s : Server) (c : Call) → P s → P (record s { session = perform c s.session }))
    (kept_by_writes : (s : Server) (st : Statement) (db : ServerDb)
      → IsServed st
      → Db.execute st s.db ≡ ok db
      → P s
      → P (record s { db = db })) where
  pub Moves_keep : {s t : Server} → Moves s t → P s → P t
  Moves_keep stay p = p
  Moves_keep (move {t = t} h (calls c e)) p = subst P (sym e) (kept_by_calls t c (Moves_keep h p))
  Moves_keep (move {t = t} h (writes st db served w e)) p =
      subst P (sym e) (kept_by_writes t st db served w (Moves_keep h p))

-- Primary keys stay unique and versions at 1 or more, whatever requests the server answers.
pub after-IsWellFormed :
    (int_of : Text → Outcome ℤ) (rs : List Request) (s : Server)
    → IsWellFormed s.db
    → IsWellFormed (after int_of rs s).db
after-IsWellFormed int_of rs s w =
    Moves_keep (λ t. IsWellFormed t.db) (λ t c p. p)
      (λ t st db served h p. execute-IsWellFormed st t.db db h p) (after-Moves int_of rs s) w

-- A document that is stored stays in every part as it is, whatever requests the server answers.
pub after-get_document :
    (int_of : Text → Outcome ℤ) (rs : List Request) (id : List ℕ) (doc : DocumentRecord)
    (s : Server)
    → get_document id s.db ≡ some doc
    → get_document id (after int_of rs s).db ≡ some doc
after-get_document int_of rs id doc s found =
    Moves_keep (λ t. get_document id t.db ≡ some doc) (λ t c p. p)
      (λ t st db served h p. execute-document st id doc t.db db served h p)
      (after-Moves int_of rs s) found

HasKeys-get_user :
    (name : Text) (sig_pub dh_pub : List ℕ) (db : ServerDb)
    → bind_text name ≡ ok tt
    → HasKeys name sig_pub dh_pub db
    → (v : UserRecord) × (get_user name db ≡ ok (some v))
      × (v.sig_pub ≡ sig_pub)
      × (v.dh_pub ≡ dh_pub)
unfolding get_user
HasKeys-get_user name sig_pub dh_pub db bound k =
    (k.row, rw (bound, k.found), k.sig_same, k.dh_same)

get_user-HasKeys :
    (name : Text) (u : UserRecord) (db : ServerDb)
    → get_user name db ≡ ok (some u)
    → (bind_text name ≡ ok tt) × HasKeys name u.sig_pub u.dh_pub db
unfolding get_user
get_user-HasKeys name u db h =
    let (_, bound, same) = >>=-eq-ok (bind_text name) _ h in
    (bound, record { row = u; found = cc same; sig_same = refl; dh_same = refl })

-- A registered user stays registered with the same signing key and the same key for key agreement,
-- whatever requests the server answers.
pub after-get_user :
    (int_of : Text → Outcome ℤ) (rs : List Request) (name : Text) (u : UserRecord) (s : Server)
    → get_user name s.db ≡ ok (some u)
    → (v : UserRecord) × (get_user name (after int_of rs s).db ≡ ok (some v))
      × (v.sig_pub ≡ u.sig_pub)
      × (v.dh_pub ≡ u.dh_pub)
after-get_user int_of rs name u s found =
    let (bound, k) = get_user-HasKeys name u s.db found in
    HasKeys-get_user name u.sig_pub u.dh_pub (after int_of rs s).db bound (
      Moves_keep (λ t. HasKeys name u.sig_pub u.dh_pub t.db) (λ t c p. p)
        (λ t st db served h p. execute-HasKeys st name u.sig_pub u.dh_pub t.db db h served p)
        (after-Moves int_of rs s) k)

pub Moves-is_member :
    (nonce : Text) {s t : Server}
    → Moves s t
    → is_member nonce s.session.used_nonces ≡ true
    → is_member nonce t.session.used_nonces ≡ true
Moves-is_member nonce h used =
    Moves_keep (λ t. is_member nonce t.session.used_nonces ≡ true)
      (λ t c p. perform-keeps nonce c t.session p) (λ t st db served h p. p) h used

-- A nonce that is used stays used.
pub after-is_member :
    (int_of : Text → Outcome ℤ) (rs : List Request) (nonce : Text) (s : Server)
    → is_member nonce s.session.used_nonces ≡ true
    → is_member nonce (after int_of rs s).session.used_nonces ≡ true
after-is_member int_of rs nonce s used = Moves-is_member nonce (after-Moves int_of rs s) used
