-- ===== src/Formats/Payload.antt =====
-- The plaintext inside a document's ciphertext, of common/formats.py.
pub mod RoundTrip
use crypto_project.Base.{
  ℕ, ◌^◌, ◌-◌, List, ◌++◌, length, ◌==◌, ltb, leb, if◌then◌else◌, Outcome, ok, raise, require,
  value_error,
}
use crypto_project.Base as Base
use crypto_project.Text.{Text}
use crypto_project.Formats.Reader.{
  Read, ◌>>=◌, ◌>>◌, pure, lift, pack_u32, pack_str, open_reader, read, read_u32, read_str,
  assert_done,
}

abbrev pub sig_len : ℕ
sig_len = 64

-- (1 << 36) - 32
abbrev pub max_content_len : ℕ
max_content_len = 2 ^ 36 - 32

unfoldable pub pack_payload : Text → Text → List ℕ → List ℕ → Outcome (List ℕ)
pack_payload filename mime content content_sig =
    if ltb max_content_len (length content)
    then raise value_error
    else (if length content_sig == sig_len
        then Base.◌>>=◌ (pack_str filename) (λ name. Base.◌>>=◌ (pack_str mime) (λ kind.
          Base.◌>>=◌ (pack_u32 (length content))
            (λ size. ok (name ++ (kind ++ (size ++ (content ++ content_sig)))))))
        else raise value_error)

pub record ParsedPayload : Type 0 where
  pub filename : Text
  pub mime : Text
  pub content : List ℕ
  pub content_sig : List ℕ

unfoldable pub read_payload : Read ParsedPayload
read_payload = do
  filename ← read_str
  mime ← read_str
  content_len ← read_u32
  lift (require (leb content_len max_content_len) value_error)
  content ← read content_len
  content_sig ← read sig_len
  assert_done
  pure (record { filename = filename; mime = mime; content = content; content_sig = content_sig })

unfoldable pub unpack_payload : List ℕ → Outcome ParsedPayload
unpack_payload blob = Base.◌>>=◌ (read_payload (open_reader blob)) (λ (p, _). ok p)
