-- ===== src/Server/Moves.antt =====
-- The moves that the server's state can make: a call on the session, or a statement on the
-- database that a handler issues. Every request is a sequence of such moves.
pub mod Requests
pub mod Kept
pub mod Histories
use crypto_project.Base.{ℕ, Option, none, some, Outcome, ok, raise, Exc, ◌≡◌, refl}
use crypto_project.Server.Session.Replay.{Call, perform}
use crypto_project.Server.Db.{ServerDb}
use crypto_project.Server.Db.Invariant.{
  Statement, insert_user, update_auth, insert_document, replace_document, put_share,
}
use crypto_project.Server.Db.Invariant as Db
use crypto_project.Server.Service.{Server, Handler}

-- The statements that the handlers issue: all but the replacement of a document.
abbrev pub IsServed : Statement → Type 0
IsServed (insert_user u) = Unit {0}
IsServed (update_auth username salt t m p auth_pub) = Unit {0}
IsServed (insert_document d) = Unit {0}
IsServed (replace_document d) = ⊥
IsServed (put_share s) = Unit {0}

pub data Move (s t : Server) : Type 0 where
  calls : (c : Call) → t ≡ record s { session = perform c s.session } → Move s t
  writes :
      (st : Statement) (db : ServerDb)
      → IsServed st
      → Db.execute st s.db ≡ ok db
      → t ≡ record s { db = db }
      → Move s t

pub data Moves (s : Server) : Server → Type 0 where
  stay : Moves s s
  move : {t u : Server} → Moves s t → Move t u → Moves s u

pub Moves-trans : {s t u : Server} → Moves s t → Moves t u → Moves s u
Moves-trans h stay = h
Moves-trans h (move k m) = move (Moves-trans h k) m

-- A handler only makes moves.
pub record OnlyMoves {A : Type 0} (m : Handler A) : Type 0 where
  pub moves : (s : Server) → Moves s (m s).1
