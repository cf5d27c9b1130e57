-- ===== src/Client/Session/Steps.antt =====
-- What the steps of client/client.py that every operation takes did, from what they returned.
use crypto_project.Base.{
  ℕ, List, [], ◌∷◌, ◌++◌, Option, none, some, Outcome, ok, raise, client_error, false, ◌==◌,
  >>=-eq-ok, ok-injective, ◌≡◌, refl, sym, ap, ◌∙◌,
}
use crypto_project.Actions.{Action, then_run, ◌>>=◌, pure, lift}
use crypto_project.Text.{Text}
use crypto_project.Wire.{MsgType, msg_code}
use crypto_project.Wire.Json.{Fields, Message}
use crypto_project.Client.Disk.{Disk}
use crypto_project.Client.Session.{
  Runtime, World, stored, write_files, rpc, received, expect, present, named, holder,
}

pub present-eq-ok : {A : Type 0} (o : Option A) {a : A} → present o ≡ ok a → o ≡ some a
unfolding present
present-eq-ok none h = cc h
present-eq-ok (some b) h = cc h

pub named-eq-ok : (o : Option Text) {name : Text} → named o ≡ ok name → o ≡ some name
unfolding named
named-eq-ok none h = cc h
named-eq-ok (some []) h = cc h
named-eq-ok (some (c ∷ s)) h = cc h

-- The peer's answer changes no field of the client and no file.
pub rpc_kept :
    (rt : Runtime) (m : MsgType) (p : Fields) (reply : Message) (w u : World)
    → rpc rt m p w ≡ (ok reply, u)
    → (u.client ≡ w.client) × (u.disk ≡ w.disk)
unfolding rpc
rpc_kept rt m p reply w u h = (ap (λ x. x.1.client) (sym h), ap (λ x. x.1.disk) (sym h))

pub holder_inv :
    (w : World) (me : Text × ℕ)
    → holder w ≡ ok me
    → (w.client.username ≡ some me.0) × (w.client.dh_priv ≡ some me.1)
unfolding holder
holder_inv w me h =
    let (username, e1, h1) = >>=-eq-ok (named w.client.username) _ h in
    let (dh_priv, e2, h2) = >>=-eq-ok (present w.client.dh_priv) _ h1 in
    let same = ok-injective h2 in
    (
      named-eq-ok w.client.username e1 ∙ ap (λ m. some m.0) same,
      present-eq-ok w.client.dh_priv e2 ∙ ap (λ m. some m.1) same,
    )

-- A write to the files that returned, and what it left to the rest.
pub write_files_inv :
    {A : Type 0} (f : Action Disk (Unit {0})) (k : Unit {0} → Action World A) (a : A) (w t : World)
    → (write_files f >>= k) w ≡ (ok a, t)
    → (d : Disk) × (f w.disk ≡ (ok tt, d)) × (k tt (record w { disk = d }) ≡ (ok a, t))
unfolding write_files ◌>>=◌
write_files_inv {A} f k a w t h = go (f w.disk) refl h
  where
    go :
        (r : Outcome (Unit {0}) × Disk)
        → f w.disk ≡ r
        → then_run (stored w r) k ≡ (ok a, t)
        → (d : Disk) × (f w.disk ≡ (ok tt, d)) × (k tt (record w { disk = d }) ≡ (ok a, t))
    go (ok u, d) e h = (d, e, h)
    go (raise x, d) e h = absurd (cc (ap (λ y. y.0) h))

-- What holds after a write, whether it returns or raises, and after the rest.
pub write_files_both {κ} :
    {A : Type 0} (P : World → Type κ) (f : Action Disk (Unit {0})) (k : Unit {0} → Action World A)
    (w : World)
    → P (record w { disk = (f w.disk).1 })
    → P (k tt (record w { disk = (f w.disk).1 })).1
    → P ((write_files f >>= k) w).1
unfolding write_files ◌>>=◌
write_files_both {A} P f k w first rest = go (f w.disk) first rest
  where
    go :
        (r : Outcome (Unit {0}) × Disk)
        → P (record w { disk = r.1 })
        → P (k tt (record w { disk = r.1 })).1
        → P (then_run (stored w r) k).1
    go (ok u, d) first rest = rest
    go (raise x, d) first rest = first

pub write_files_ok :
    {A : Type 0} (f : Action Disk (Unit {0})) (k : Unit {0} → Action World A) (w : World) (d : Disk)
    → f w.disk ≡ (ok tt, d)
    → (write_files f >>= k) w ≡ k tt (record w { disk = d })
unfolding write_files ◌>>=◌
write_files_ok f k w d h = rw h refl

-- The last request of an operation, answered with anything but OK.
pub refused_after :
    (rt : Runtime) (p : List Message → Outcome Message) (m : MsgType) (request : Fields)
    (reply : Message) (w : World)
    → (msg_code reply.0 == msg_code MsgType.ok_reply) ≡ false
    → p (w.sent ++ ((m, request) ∷ [])) ≡ ok reply
    → (rpc (record rt { peer = p }) m request >>= λ answer.
          lift (expect MsgType.ok_reply answer) >>= λ _. pure tt)
        w
      ≡ (raise client_error, record w { sent = w.sent ++ ((m, request) ∷ []) })
unfolding rpc received expect pure lift ◌>>=◌
refused_after rt p m request reply w other answers = rw (answers, other) refl

pub sent_after :
    (rt : Runtime) (m : MsgType) (request : Fields) (answer : Message) (w v : World)
    → rpc rt m request w ≡ (ok answer, v)
    → record w { sent = w.sent ++ ((m, request) ∷ []) } ≡ v
unfolding rpc
sent_after rt m request answer w v h = ap (λ x. x.1) h
