-- ===== src/Examples/Payloads.antt =====
-- The theorems on the payloads of the client at concrete inputs.
use crypto_project.Base.{
  ℤ, pos, replicate, All-replicate, Outcome, ok, raise, value_error, ◌≡◌, refl, arith,
}
use crypto_project.Bytes.{IsByte}
use crypto_project.Text.{Text, codes}
use crypto_project.Server.Requests.{read_register}
use crypto_project.Client.Requests.{register_payload}
use crypto_project.Client.Requests.Accepted.{read_register-register_payload}

no_int : Text → Outcome ℤ
no_int s = raise value_error

read_register-register_payload_example :
    read_register no_int (
      register_payload
        (codes "alice")
        (replicate 16 1)
        (replicate 65 2)
        (replicate 65 3)
        (replicate 65 4))
    ≡ ok (record {
      username = codes "alice";
      salt = replicate 16 1;
      auth_pub = replicate 65 2;
      sig_pub = replicate 65 3;
      dh_pub = replicate 65 4;
      argon2_t = pos 2;
      argon2_m = pos 131072;
      argon2_p = pos 1;
    })
read_register-register_payload_example =
    read_register-register_payload no_int (codes "alice") (replicate 16 1) (replicate 65 2)
      (replicate 65 3) (replicate 65 4) (All-replicate IsByte 16 1 (omega arith))
      (All-replicate IsByte 65 2 (omega arith)) (All-replicate IsByte 65 3 (omega arith))
      (All-replicate IsByte 65 4 (omega arith)) refl refl refl refl
