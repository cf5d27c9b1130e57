-- ===== src/Crypto/Sha256.antt =====
-- crypto/sha256.py: SHA-256, at once and incrementally. A word is a number below 2 ^ 32.
pub mod Padding
pub mod Blocks
pub mod Streaming
use crypto_project.Base.{
  ℕ, zero, suc, ◌+◌, ◌-◌, ◌*◌, ◌/◌, ◌%◌, ◌^◌, bit_and, bit_or, bit_xor, Bool, true, false, List, [],
  ◌∷◌, ◌++◌, length, take, drop, get_or, ◌==◌, if◌then◌else◌, Outcome, ok, raise, runtime_error,
}
use crypto_project.Bytes.{be_bytes, from_bytes}

abbrev pub k_table : List ℕ
k_table =
    0x428a2f98 ∷ 0x71374491 ∷ 0xb5c0fbcf ∷ 0xe9b5dba5 ∷ 0x3956c25b ∷ 0x59f111f1 ∷ 0x923f82a4
    ∷ 0xab1c5ed5 ∷ 0xd807aa98 ∷ 0x12835b01 ∷ 0x243185be ∷ 0x550c7dc3 ∷ 0x72be5d74 ∷ 0x80deb1fe
    ∷ 0x9bdc06a7 ∷ 0xc19bf174 ∷ 0xe49b69c1 ∷ 0xefbe4786 ∷ 0x0fc19dc6 ∷ 0x240ca1cc ∷ 0x2de92c6f
    ∷ 0x4a7484aa ∷ 0x5cb0a9dc ∷ 0x76f988da ∷ 0x983e5152 ∷ 0xa831c66d ∷ 0xb00327c8 ∷ 0xbf597fc7
    ∷ 0xc6e00bf3 ∷ 0xd5a79147 ∷ 0x06ca6351 ∷ 0x14292967 ∷ 0x27b70a85 ∷ 0x2e1b2138 ∷ 0x4d2c6dfc
    ∷ 0x53380d13 ∷ 0x650a7354 ∷ 0x766a0abb ∷ 0x81c2c92e ∷ 0x92722c85 ∷ 0xa2bfe8a1 ∷ 0xa81a664b
    ∷ 0xc24b8b70 ∷ 0xc76c51a3 ∷ 0xd192e819 ∷ 0xd6990624 ∷ 0xf40e3585 ∷ 0x106aa070 ∷ 0x19a4c116
    ∷ 0x1e376c08 ∷ 0x2748774c ∷ 0x34b0bcb5 ∷ 0x391c0cb3 ∷ 0x4ed8aa4a ∷ 0x5b9cca4f ∷ 0x682e6ff3
    ∷ 0x748f82ee ∷ 0x78a5636f ∷ 0x84c87814 ∷ 0x8cc70208 ∷ 0x90befffa ∷ 0xa4506ceb ∷ 0xbef9a3f7
    ∷ 0xc67178f2 ∷ []

-- The eight words of a hash state; the same fields serve as the working variables.
pub record Words : Type 0 where
  pub a : ℕ
  pub b : ℕ
  pub c : ℕ
  pub d : ℕ
  pub e : ℕ
  pub f : ℕ
  pub g : ℕ
  pub h : ℕ

abbrev pub h_init : Words
h_init = record {
  a = 0x6a09e667;
  b = 0xbb67ae85;
  c = 0x3c6ef372;
  d = 0xa54ff53a;
  e = 0x510e527f;
  f = 0x9b05688c;
  g = 0x1f83d9ab;
  h = 0x5be0cd19;
}

abbrev pub mask32 : ℕ
mask32 = 0xFFFFFFFF

pub rotr : ℕ → ℕ → ℕ
rotr x n = bit_and (bit_or (x / 2 ^ n) (x * 2 ^ (32 - n))) mask32

pub shr : ℕ → ℕ → ℕ
shr x n = bit_and x mask32 / 2 ^ n

-- `~x & _MASK32` is the complement within 32 bits.
pub ch : ℕ → ℕ → ℕ → ℕ
ch x y z = bit_xor (bit_and x y) (bit_and (bit_xor (bit_and x mask32) mask32) z)

pub maj : ℕ → ℕ → ℕ → ℕ
maj x y z = bit_xor (bit_xor (bit_and x y) (bit_and x z)) (bit_and y z)

pub big_sigma0 : ℕ → ℕ
unfolding rotr
big_sigma0 x = bit_xor (bit_xor (rotr x 2) (rotr x 13)) (rotr x 22)

pub big_sigma1 : ℕ → ℕ
unfolding rotr
big_sigma1 x = bit_xor (bit_xor (rotr x 6) (rotr x 11)) (rotr x 25)

pub small_sigma0 : ℕ → ℕ
unfolding rotr shr
small_sigma0 x = bit_xor (bit_xor (rotr x 7) (rotr x 18)) (shr x 3)

pub small_sigma1 : ℕ → ℕ
unfolding rotr shr
small_sigma1 x = bit_xor (bit_xor (rotr x 17) (rotr x 19)) (shr x 10)

-- `while len(padded) % 64 != 56: padded += b"\x00"`, in at most `fuel` rounds; 64 are enough.
pub pad_zeros : ℕ → List ℕ → List ℕ
pad_zeros zero padded = padded
pad_zeros (suc fuel) padded =
    let rest = pad_zeros fuel (padded ++ (0 ∷ [])) in
    if length padded % 64 == 56 then padded else rest

-- The tail that both `_pad` and `digest` write behind `message`.
pub finish : List ℕ → ℕ → List ℕ
unfolding pad_zeros be_bytes
finish message bit_len = pad_zeros 64 (message ++ (0x80 ∷ [])) ++ be_bytes 8 bit_len

pub pad : List ℕ → List ℕ
unfolding finish
pad message = finish message (length message * 8)

-- The first sixteen words of the schedule.
pub block_words : ℕ → List ℕ → List ℕ
unfolding from_bytes
block_words zero block = []
block_words (suc n) block = from_bytes (take 4 block) ∷ block_words n (drop 4 block)

-- `W[t]` for the next `t`, which is the length of the list so far.
pub next_word : List ℕ → ℕ
unfolding small_sigma0 small_sigma1
next_word w =
    let t = length w in
    bit_and
      (small_sigma1 (get_or w (t - 2) 0)
        + get_or w (t - 7) 0
        + small_sigma0 (get_or w (t - 15) 0)
        + get_or w (t - 16) 0)
      mask32

pub extend : ℕ → List ℕ → List ℕ
unfolding next_word
extend zero w = w
extend (suc n) w = extend n (w ++ (next_word w ∷ []))

pub round : Words → ℕ → ℕ → Words
unfolding ch maj big_sigma0 big_sigma1
round v k w =
    let t1 = bit_and (v.h + big_sigma1 v.e + ch v.e v.f v.g + k + w) mask32 in
    let t2 = bit_and (big_sigma0 v.a + maj v.a v.b v.c) mask32 in
    record {
      a = bit_and (t1 + t2) mask32;
      b = v.a;
      c = v.b;
      d = v.c;
      e = bit_and (v.d + t1) mask32;
      f = v.e;
      g = v.f;
      h = v.g;
    }

pub rounds : Words → List ℕ → List ℕ → Words
unfolding round
rounds v (k ∷ ks) (w ∷ ws) = rounds (round v k w) ks ws
rounds v _ _ = v

pub compress : List ℕ → Words → Words
unfolding block_words extend rounds
compress block s =
    let v = rounds s k_table (extend 48 (block_words 16 block)) in
    record {
      a = bit_and (s.a + v.a) mask32;
      b = bit_and (s.b + v.b) mask32;
      c = bit_and (s.c + v.c) mask32;
      d = bit_and (s.d + v.d) mask32;
      e = bit_and (s.e + v.e) mask32;
      f = bit_and (s.f + v.f) mask32;
      g = bit_and (s.g + v.g) mask32;
      h = bit_and (s.h + v.h) mask32;
    }

-- `for i in range(n): h = _compress(buf[i * 64 : i * 64 + 64], h)`
pub absorb : ℕ → List ℕ → Words → Words
unfolding compress
absorb zero buf s = s
absorb (suc n) buf s = absorb n (drop 64 buf) (compress (take 64 buf) s)

-- `b"".join(word.to_bytes(4, "big") for word in h)`
pub digest_bytes : Words → List ℕ
unfolding be_bytes
digest_bytes s =
    be_bytes 4 s.a
    ++ (be_bytes 4 s.b
        ++ (be_bytes 4 s.c
            ++ (be_bytes 4 s.d
                ++ (be_bytes 4 s.e ++ (be_bytes 4 s.f ++ (be_bytes 4 s.g ++ be_bytes 4 s.h))))))

-- `range(0, len(padded), 64)` has one round for each block, a last short one counted.
unfoldable pub sha256 : List ℕ → List ℕ
unfolding pad absorb digest_bytes
sha256 message =
    let padded = pad message in digest_bytes (absorb ((length padded + 63) / 64) padded h_init)

-- The class `Sha256`.
pub record Hasher : Type 0 where
  pub words : Words
  pub buffer : List ℕ
  pub size : ℕ
  pub finalized : Bool

pub new : Hasher
new = record { words = h_init; buffer = []; size = 0; finalized = false }

pub update : Hasher → List ℕ → Outcome Hasher
unfolding absorb
update s chunk =
    let buf = s.buffer ++ chunk in
    let n_full = length buf / 64 in
    if s.finalized
    then raise runtime_error
    else ok (record {
      words = absorb n_full buf s.words;
      buffer = drop (n_full * 64) buf;
      size = s.size + length chunk;
      finalized = false;
    })

pub digest : Hasher → Outcome (List ℕ × Hasher)
unfolding finish absorb digest_bytes
digest s =
    let p = finish s.buffer (s.size * 8) in
    if s.finalized
    then raise runtime_error
    else ok (digest_bytes (absorb ((length p + 63) / 64) p s.words), record s { finalized = true })
