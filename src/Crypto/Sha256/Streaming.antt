-- ===== src/Crypto/Sha256/Streaming.antt =====
-- The class `Sha256` against `sha256`: feeding a message in any pieces gives its digest.
use mathlib.Core.List.{flatten}
use mathlib.Core.Path.{subst}
use crypto_project.Base.{
  ℕ, ◌+◌, ◌*◌, ◌/◌, List, [], ◌∷◌, ◌++◌, length, take, drop, length-append, length-take,
  take-append-drop, append-nil, append_assoc, false, true, Outcome, ok, ◌>>=◌, ◌≡◌, refl, sym, ap,
  ap₂, ◌∙◌, arith,
}
use crypto_project.Crypto.Sha256.{
  h_init, absorb, finish, pad, digest_bytes, sha256, Hasher, new, update, digest,
}
use crypto_project.Crypto.Sha256.Padding.{tail_of, tail_of_cut, finish-tail_of, length-finish}
use crypto_project.Crypto.Sha256.Blocks.{absorb-append, absorb-take}

-- `s` has been fed `message` and not been finished.
pub record HasFed (message : List ℕ) (s : Hasher) : Type 0 where
  pub full : List ℕ
  pub blocks : ℕ
  pub full_size : length full ≡ 64 * blocks
  pub split : message ≡ full ++ s.buffer
  pub state : s.words ≡ absorb blocks full h_init
  pub size : s.size ≡ length message
  pub running : s.finalized ≡ false

new-HasFed : HasFed [] new
unfolding new absorb
new-HasFed = record {
  full = [];
  blocks = 0;
  full_size = omega arith;
  split = refl;
  state = refl;
  size = refl;
  running = refl;
}

pub update-HasFed :
    (message chunk : List ℕ) (s : Hasher)
    → HasFed message s
    → (t : Hasher) × (update s chunk ≡ ok t) × HasFed (message ++ chunk) t
unfolding update
update-HasFed message chunk s fed = (
  record {
    words = absorb n buf s.words;
    buffer = drop (n * 64) buf;
    size = s.size + length chunk;
    finalized = false;
  },
  rw fed.running,
  record {
    full = fed.full ++ take (n * 64) buf;
    blocks = fed.blocks + n;
    full_size = omega (
      arith,
      fed.full_size,
      length-append fed.full (take (n * 64) buf),
      length-take (n * 64) buf,
    );
    split =
        ap (λ t. t ++ chunk) fed.split
        ∙ append_assoc fed.full s.buffer chunk
        ∙ ap (λ t. fed.full ++ t) (sym (take-append-drop (n * 64) buf))
        ∙ sym (append_assoc fed.full (take (n * 64) buf) (drop (n * 64) buf));
    state =
        ap (absorb n buf) fed.state
        ∙ sym (absorb-take n buf _ (omega arith))
        ∙ sym (absorb-append fed.blocks n fed.full (take (n * 64) buf) h_init fed.full_size);
    size = omega (arith, fed.size, length-append message chunk);
    running = refl;
  },
)
  where
    buf : List ℕ
    buf = s.buffer ++ chunk

    n : ℕ
    n = length buf / 64

module _ (message : List ℕ) (s : Hasher) (fed : HasFed message s) where
  abbrev rest : List ℕ
  rest = finish s.buffer (s.size * 8)

  -- What `_pad` writes for the whole message is the consumed part and what `digest` writes.
  pad-eq-full : pad message ≡ fed.full ++ rest
  unfolding pad
  pad-eq-full =
      finish-tail_of message (length message * 8)
      ∙ ap₂ ◌++◌ fed.split (
          ap₂ tail_of sizes (ap (λ t. t * 8) (sym fed.size))
          ∙ tail_of_cut fed.blocks (length s.buffer) (s.size * 8))
      ∙ append_assoc fed.full s.buffer _
      ∙ ap (λ t. fed.full ++ t) (sym (finish-tail_of s.buffer (s.size * 8)))
    where
      sizes : length message ≡ 64 * fed.blocks + length s.buffer
      sizes = ap length fed.split ∙ omega (arith, length-append fed.full s.buffer, fed.full_size)

  round_count : (length (pad message) + 63) / 64 ≡ fed.blocks + (length rest + 63) / 64
  round_count = omega (
    arith,
    ap length pad-eq-full,
    length-append fed.full rest,
    fed.full_size,
    length-finish s.buffer (s.size * 8),
  )

  pub digest-HasFed : digest s ≡ ok (sha256 message, record s { finalized = true })
  unfolding digest sha256
  digest-HasFed = rw fed.running (
      ap (λ t. ok (digest_bytes t, record s { finalized = true }))
        (ap (absorb ((length rest + 63) / 64) rest) fed.state
          ∙ sym (
              absorb-append fed.blocks ((length rest + 63) / 64) fed.full rest h_init fed.full_size)
          ∙ sym (ap₂ (λ n p. absorb n p h_init) round_count pad-eq-full)))

-- Feeds the pieces in order.
pub feed : Hasher → List (List ℕ) → Outcome Hasher
feed s [] = ok s
feed s (chunk ∷ chunks) = do t ← update s chunk; feed t chunks

feed-HasFed :
    (message : List ℕ) (chunks : List (List ℕ)) (s : Hasher)
    → HasFed message s
    → (t : Hasher) × (feed s chunks ≡ ok t) × HasFed (message ++ flatten chunks) t
unfolding feed flatten
feed-HasFed message [] s fed = (s, refl, rw append-nil fed)
feed-HasFed message (chunk ∷ chunks) s fed =
    let (t, e, fed') = update-HasFed message chunk s fed in
    let (u, e', fed'') = feed-HasFed (message ++ chunk) chunks t fed' in
    (u, rw e e', subst (λ m. HasFed m u) (append_assoc message chunk (flatten chunks)) fed'')

-- Feeding a new `Sha256` the pieces of a message, however it is cut, never raises, and `digest`
-- then returns `sha256` of the whole message.
pub digest-feed :
    (chunks : List (List ℕ))
    → (t : Hasher) × (u : Hasher) × (feed new chunks ≡ ok t)
      × (digest t ≡ ok (sha256 (flatten chunks), u))
digest-feed chunks =
    let (t, e, fed) = feed-HasFed [] chunks new new-HasFed in
    (t, record t { finalized = true }, e, digest-HasFed (flatten chunks) t fed)
