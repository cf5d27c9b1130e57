-- ===== src/Attacker/Replayed.antt =====
-- attacker/attacker_proxy.py in mode replay, before the server of server/server.py.
use crypto_project.Base.{ℤ, true, false, [], none, Outcome, ok, ◌≡◌, refl, ap}
use crypto_project.Actions.{Action}
use crypto_project.Text.{Text, codes}
use crypto_project.Wire.{MsgType}
use crypto_project.Wire.Json.{Fields, Message}
use crypto_project.Server.Requests.{require_str}
use crypto_project.Server.Service.{Server, Problem, Reply, error}
use crypto_project.Server.Replies.{message_of}
use crypto_project.Server.Handlers.{Env, respond}
use crypto_project.Server.Handlers.Steps.{is_error}
use crypto_project.Server.Handlers.Replay.{is_signed, respond-replayed}
use crypto_project.Server.Moves.Histories.{after}
use crypto_project.Attacker.{
  replay, KeyDraws, attacked, attack_response, choose_by, choose, seen, handle,
}

-- The server as the proxy reaches it: it answers a request with a message.
unfoldable pub served_by :
    (Text → Outcome ℤ) → (Problem → Text) → Text → Env → Message → Action Server Message
served_by int_of text_of success env m s =
    let (r, t) = respond int_of env m.0 m.1 s in (ok (message_of text_of success r), t)

error-message :
    (text_of : Problem → Text) (success : Text) (r : Reply)
    → is_error r ≡ true
    → (message_of text_of success r).0 ≡ MsgType.error_reply
unfolding message_of
error-message text_of success (error p) h = refl
error-message text_of success other h = absurd (cc h)

-- When a signed request with a nonce has passed through a new proxy in mode replay and the server has not
-- answered it with an error, the next client gets an ERROR message, whatever its request.
pub handle-replayed :
    (int_of : Text → Outcome ℤ) (text_of : Problem → Text) (success : Text) (env env' : Env)
    (draws draws' : KeyDraws) (request next : Message) (nonce : Text) (s : Server)
    → is_signed request.0 ≡ true
    → require_str request.1 (codes "request_nonce") ≡ ok nonce
    → is_error (respond int_of env request.0 request.1 s).0 ≡ false
    → (payload : Fields) × ((handle
          (served_by int_of text_of success env')
          draws'
          next
          (handle
            (served_by int_of text_of success env)
            draws
            request
            (record { mode = replay; last_request = none }, s)).1).0
        ≡ ok (MsgType.error_reply, payload))
unfolding handle served_by choose choose_by seen attack_response attacked after
handle-replayed int_of text_of success env env' draws draws' request next nonce s signed has
      passed =
    let again =
      respond-replayed int_of env env' request.0 request.0 request.1 request.1 [] s nonce signed
        signed has has passed in
    let reply =
      message_of text_of success
        (respond int_of env' request.0 request.1 (respond int_of env request.0 request.1 s).1).0 in
    (
      reply.1,
      ap {A = MsgType} (λ t. ok (t, reply.1))
          (error-message text_of success
            (respond int_of env' request.0 request.1 (respond int_of env request.0 request.1 s).1).0
            again),
    )
