-- ===== src/Server/Session/Replay.antt =====
-- A nonce is accepted once and a challenge is given out once, whatever calls come between.
use crypto_project.Base.{ℕ, true, false, List, [], ◌∷◌, none, ◌===◌, ===_refl, ◌≡◌, refl, arith}
use crypto_project.Text.{Text}
use crypto_project.Server.Session.{
  Pending, SessionState, without, pending_for, issue_challenge, fresh, consume_challenge, is_member,
  check_and_consume_nonce,
}

-- The calls that change the state.
pub data Call : Type 0 where
  issue : Text → List ℕ → ℕ → Call
  consume : Text → ℕ → Call
  use_nonce : Text → Call

unfoldable pub perform : Call → SessionState → SessionState
perform (issue user challenge now) s = (issue_challenge user challenge now s).1
perform (consume user now) s = (consume_challenge user now s).1
perform (use_nonce nonce) s = (check_and_consume_nonce nonce s).1

unfoldable pub run : List Call → SessionState → SessionState
run [] s = s
run (c ∷ cs) s = run cs (perform c s)

-- No call of the list issues a challenge to `user`.
unfoldable pub NeverIssued : Text → List Call → Type 0
NeverIssued user [] = Unit {0}
NeverIssued user (issue v challenge now ∷ cs) = ((v === user) ≡ false) × NeverIssued user cs
NeverIssued user (consume v now ∷ cs) = NeverIssued user cs
NeverIssued user (use_nonce n ∷ cs) = NeverIssued user cs

pub perform-keeps :
    (n : Text) (c : Call) (s : SessionState)
    → is_member n s.used_nonces ≡ true
    → is_member n (perform c s).used_nonces ≡ true
unfolding perform issue_challenge consume_challenge check_and_consume_nonce is_member
perform-keeps n (issue user challenge now) s h = h
perform-keeps n (consume user now) s h = h
perform-keeps n (use_nonce m) s h = ground arith

pub run-keeps :
    (n : Text) (cs : List Call) (s : SessionState)
    → is_member n s.used_nonces ≡ true
    → is_member n (run cs s).used_nonces ≡ true
unfolding run
run-keeps n [] s h = h
run-keeps n (c ∷ cs) s h = run-keeps n cs (perform c s) (perform-keeps n c s h)

pub consumed-member :
    (n : Text) (s : SessionState)
    → (check_and_consume_nonce n s).0 ≡ true
    → is_member n (check_and_consume_nonce n s).1.used_nonces ≡ true
unfolding check_and_consume_nonce is_member
consumed-member n s h = ground (arith, ===_refl n)

pub member-refused :
    (n : Text) (s : SessionState)
    → is_member n s.used_nonces ≡ true
    → (check_and_consume_nonce n s).0 ≡ false
unfolding check_and_consume_nonce
member-refused n s h = ground arith

-- A nonce that was accepted is refused after any calls.
pub nonce-accepted_once :
    (n : Text) (cs : List Call) (s : SessionState)
    → (check_and_consume_nonce n s).0 ≡ true
    → (check_and_consume_nonce n (run cs (check_and_consume_nonce n s).1)).0 ≡ false
nonce-accepted_once n cs s h =
    member-refused n (run cs (check_and_consume_nonce n s).1)
      (run-keeps n cs (check_and_consume_nonce n s).1 (consumed-member n s h))

pending_for-without : (u : Text) (ps : List Pending) → pending_for u (without u ps) ≡ none
unfolding pending_for without
pending_for-without u [] = refl
pending_for-without u (p ∷ ps) = ground (arith, pending_for-without u ps)

pending_for-without_other :
    (u v : Text) (ps : List Pending) → pending_for u ps ≡ none → pending_for u (without v ps) ≡ none
unfolding pending_for without
pending_for-without_other u v [] h = refl
pending_for-without_other u v (p ∷ ps) h = ground (arith, pending_for-without_other u v ps)

perform-leaves_none :
    (u : Text) (c : Call) (cs : List Call) (s : SessionState)
    → NeverIssued u (c ∷ cs)
    → pending_for u s.challenges ≡ none
    → (NeverIssued u cs) × (pending_for u (perform c s).challenges ≡ none)
unfolding NeverIssued perform issue_challenge consume_challenge check_and_consume_nonce pending_for
perform-leaves_none u (issue v challenge now) cs s never h =
    (never.1, rw never.0 (pending_for-without_other u v s.challenges h))
perform-leaves_none u (consume v now) cs s never h =
    (never, pending_for-without_other u v s.challenges h)
perform-leaves_none u (use_nonce n) cs s never h = (never, ground arith)

run-leaves_none :
    (u : Text) (cs : List Call) (s : SessionState)
    → NeverIssued u cs
    → pending_for u s.challenges ≡ none
    → pending_for u (run cs s).challenges ≡ none
unfolding run
run-leaves_none u [] s never h = h
run-leaves_none u (c ∷ cs) s never h =
    let (rest, left) = perform-leaves_none u c cs s never h in
    run-leaves_none u cs (perform c s) rest left

pending_for-consume :
    (u : Text) (now : ℕ) (s : SessionState)
    → pending_for u (consume_challenge u now s).1.challenges ≡ none
unfolding consume_challenge
pending_for-consume u now s = pending_for-without u s.challenges

none-consume :
    (u : Text) (now : ℕ) (s : SessionState)
    → pending_for u s.challenges ≡ none
    → (consume_challenge u now s).0 ≡ none
unfolding consume_challenge fresh
none-consume u now s h = rw h

-- After a challenge was consumed, and whatever the result was, consuming it again returns nothing, at
-- any time and after any calls that do not issue a new challenge to the same user.
pub challenge-consumed_once :
    (u : Text) (now later : ℕ) (cs : List Call) (s : SessionState)
    → NeverIssued u cs
    → (consume_challenge u later (run cs (consume_challenge u now s).1)).0 ≡ none
challenge-consumed_once u now later cs s never =
    let after = (consume_challenge u now s).1 in
    none-consume u later (run cs after)
      (run-leaves_none u cs after never (pending_for-consume u now s))
