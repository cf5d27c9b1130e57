-- ===== src/Crypto/Aes.antt =====
-- crypto/aes.py: the AES block cipher. A state is a list of 16 bytes, column after column.
pub mod Lengths
pub mod Block
use crypto_project.Base.{
  ℕ, zero, suc, ◌+◌, ◌-◌, ◌*◌, ◌/◌, ◌%◌, bit_and, bit_xor, ◌&&◌, List, [], ◌∷◌, ◌++◌, map, length,
  take, drop, get_or, ◌==◌, ltb, if◌then◌else◌, Outcome, ok, raise, value_error, ◌>>=◌,
}
use crypto_project.Bytes.{zip_xor}

abbrev pub sbox : List ℕ
sbox =
    0x63 ∷ 0x7c ∷ 0x77 ∷ 0x7b ∷ 0xf2 ∷ 0x6b ∷ 0x6f ∷ 0xc5 ∷ 0x30 ∷ 0x01 ∷ 0x67 ∷ 0x2b ∷ 0xfe ∷ 0xd7
    ∷ 0xab ∷ 0x76 ∷ 0xca ∷ 0x82 ∷ 0xc9 ∷ 0x7d ∷ 0xfa ∷ 0x59 ∷ 0x47 ∷ 0xf0 ∷ 0xad ∷ 0xd4 ∷ 0xa2
    ∷ 0xaf ∷ 0x9c ∷ 0xa4 ∷ 0x72 ∷ 0xc0 ∷ 0xb7 ∷ 0xfd ∷ 0x93 ∷ 0x26 ∷ 0x36 ∷ 0x3f ∷ 0xf7 ∷ 0xcc
    ∷ 0x34 ∷ 0xa5 ∷ 0xe5 ∷ 0xf1 ∷ 0x71 ∷ 0xd8 ∷ 0x31 ∷ 0x15 ∷ 0x04 ∷ 0xc7 ∷ 0x23 ∷ 0xc3 ∷ 0x18
    ∷ 0x96 ∷ 0x05 ∷ 0x9a ∷ 0x07 ∷ 0x12 ∷ 0x80 ∷ 0xe2 ∷ 0xeb ∷ 0x27 ∷ 0xb2 ∷ 0x75 ∷ 0x09 ∷ 0x83
    ∷ 0x2c ∷ 0x1a ∷ 0x1b ∷ 0x6e ∷ 0x5a ∷ 0xa0 ∷ 0x52 ∷ 0x3b ∷ 0xd6 ∷ 0xb3 ∷ 0x29 ∷ 0xe3 ∷ 0x2f
    ∷ 0x84 ∷ 0x53 ∷ 0xd1 ∷ 0x00 ∷ 0xed ∷ 0x20 ∷ 0xfc ∷ 0xb1 ∷ 0x5b ∷ 0x6a ∷ 0xcb ∷ 0xbe ∷ 0x39
    ∷ 0x4a ∷ 0x4c ∷ 0x58 ∷ 0xcf ∷ 0xd0 ∷ 0xef ∷ 0xaa ∷ 0xfb ∷ 0x43 ∷ 0x4d ∷ 0x33 ∷ 0x85 ∷ 0x45
    ∷ 0xf9 ∷ 0x02 ∷ 0x7f ∷ 0x50 ∷ 0x3c ∷ 0x9f ∷ 0xa8 ∷ 0x51 ∷ 0xa3 ∷ 0x40 ∷ 0x8f ∷ 0x92 ∷ 0x9d
    ∷ 0x38 ∷ 0xf5 ∷ 0xbc ∷ 0xb6 ∷ 0xda ∷ 0x21 ∷ 0x10 ∷ 0xff ∷ 0xf3 ∷ 0xd2 ∷ 0xcd ∷ 0x0c ∷ 0x13
    ∷ 0xec ∷ 0x5f ∷ 0x97 ∷ 0x44 ∷ 0x17 ∷ 0xc4 ∷ 0xa7 ∷ 0x7e ∷ 0x3d ∷ 0x64 ∷ 0x5d ∷ 0x19 ∷ 0x73
    ∷ 0x60 ∷ 0x81 ∷ 0x4f ∷ 0xdc ∷ 0x22 ∷ 0x2a ∷ 0x90 ∷ 0x88 ∷ 0x46 ∷ 0xee ∷ 0xb8 ∷ 0x14 ∷ 0xde
    ∷ 0x5e ∷ 0x0b ∷ 0xdb ∷ 0xe0 ∷ 0x32 ∷ 0x3a ∷ 0x0a ∷ 0x49 ∷ 0x06 ∷ 0x24 ∷ 0x5c ∷ 0xc2 ∷ 0xd3
    ∷ 0xac ∷ 0x62 ∷ 0x91 ∷ 0x95 ∷ 0xe4 ∷ 0x79 ∷ 0xe7 ∷ 0xc8 ∷ 0x37 ∷ 0x6d ∷ 0x8d ∷ 0xd5 ∷ 0x4e
    ∷ 0xa9 ∷ 0x6c ∷ 0x56 ∷ 0xf4 ∷ 0xea ∷ 0x65 ∷ 0x7a ∷ 0xae ∷ 0x08 ∷ 0xba ∷ 0x78 ∷ 0x25 ∷ 0x2e
    ∷ 0x1c ∷ 0xa6 ∷ 0xb4 ∷ 0xc6 ∷ 0xe8 ∷ 0xdd ∷ 0x74 ∷ 0x1f ∷ 0x4b ∷ 0xbd ∷ 0x8b ∷ 0x8a ∷ 0x70
    ∷ 0x3e ∷ 0xb5 ∷ 0x66 ∷ 0x48 ∷ 0x03 ∷ 0xf6 ∷ 0x0e ∷ 0x61 ∷ 0x35 ∷ 0x57 ∷ 0xb9 ∷ 0x86 ∷ 0xc1
    ∷ 0x1d ∷ 0x9e ∷ 0xe1 ∷ 0xf8 ∷ 0x98 ∷ 0x11 ∷ 0x69 ∷ 0xd9 ∷ 0x8e ∷ 0x94 ∷ 0x9b ∷ 0x1e ∷ 0x87
    ∷ 0xe9 ∷ 0xce ∷ 0x55 ∷ 0x28 ∷ 0xdf ∷ 0x8c ∷ 0xa1 ∷ 0x89 ∷ 0x0d ∷ 0xbf ∷ 0xe6 ∷ 0x42 ∷ 0x68
    ∷ 0x41 ∷ 0x99 ∷ 0x2d ∷ 0x0f ∷ 0xb0 ∷ 0x54 ∷ 0xbb ∷ 0x16 ∷ []

abbrev pub rcon : List ℕ
rcon = 0x00 ∷ 0x01 ∷ 0x02 ∷ 0x04 ∷ 0x08 ∷ 0x10 ∷ 0x20 ∷ 0x40 ∷ 0x80 ∷ 0x1B ∷ 0x36 ∷ []

pub xtime : ℕ → ℕ
xtime b = if bit_and b 0x80 == 0 then bit_and (b * 2) 0xFF else bit_and (bit_xor (b * 2) 0x1B) 0xFF

-- The loop of `_gmul`, with the rounds left.
pub gmul_loop : ℕ → ℕ → ℕ → ℕ → ℕ
unfolding xtime
gmul_loop zero a b result = result
gmul_loop (suc n) a b result =
    gmul_loop n (xtime a) (b / 2) (if bit_and b 1 == 0 then result else bit_xor result a)

pub gmul : ℕ → ℕ → ℕ
unfolding gmul_loop
gmul a b = gmul_loop 8 a b 0

pub sub_word : List ℕ → List ℕ
sub_word = map (λ b. get_or sbox b 0)

pub rot_word : List ℕ → List ℕ
rot_word word = drop 1 word ++ take 1 word

-- `bytes([temp[0] ^ RCON[i // nk]]) + temp[1:]`
pub add_rcon : ℕ → List ℕ → List ℕ
add_rcon r temp = bit_xor (get_or temp 0 0) r ∷ drop 1 temp

-- What is done to `words[i - 1]` before it is added to `words[i - nk]`.
pub schedule_core : ℕ → ℕ → List ℕ → List ℕ
unfolding sub_word rot_word add_rcon
schedule_core nk i temp =
    if i % nk == 0
    then add_rcon (get_or rcon (i / nk) 0) (sub_word (rot_word temp))
    else if ltb 6 nk && i % nk == 4
    then sub_word temp
    else temp

-- `for i in range(nk, total_words)`: `i` is the number of words so far, `n` the rounds left.
pub expand : ℕ → ℕ → List (List ℕ) → List (List ℕ)
unfolding schedule_core zip_xor
expand zero nk words = words
expand (suc n) nk words =
    let i = length words in
    let temp = schedule_core nk i (get_or words (i - 1) []) in
    expand n nk (words ++ (zip_xor (get_or words (i - nk) []) temp ∷ []))

-- `[key[i * 4 : i * 4 + 4] for i in range(nk)]`
pub key_words : ℕ → List ℕ → List (List ℕ)
key_words zero key = []
key_words (suc n) key = take 4 key ∷ key_words n (drop 4 key)

-- `[b"".join(words[i * 4 : i * 4 + 4]) for i in range(n)]`
pub group_keys : ℕ → List (List ℕ) → List (List ℕ)
group_keys zero words = []
group_keys (suc n) words =
    (get_or words 0 [] ++ (get_or words 1 [] ++ (get_or words 2 [] ++ get_or words 3 [])))
    ∷ group_keys n (drop 4 words)

pub key_schedule : ℕ → ℕ → List ℕ → List (List ℕ)
unfolding expand key_words group_keys
key_schedule nk nr key = group_keys (nr + 1) (expand (4 * (nr + 1) - nk) nk (key_words nk key))

pub key_expansion : List ℕ → Outcome (List (List ℕ))
unfolding key_schedule
key_expansion key =
    if length key == 16
    then ok (key_schedule 4 10 key)
    else if length key == 32
    then ok (key_schedule 8 14 key)
    else raise value_error

pub sub_bytes : List ℕ → List ℕ
sub_bytes = map (λ b. get_or sbox b 0)

pub shift_rows : List ℕ → List ℕ
shift_rows s =
    let at = λ (i : ℕ). get_or s i 0 in
    at 0
    ∷ at 5
    ∷ at 10
    ∷ at 15
    ∷ at 4
    ∷ at 9
    ∷ at 14
    ∷ at 3
    ∷ at 8
    ∷ at 13
    ∷ at 2
    ∷ at 7
    ∷ at 12
    ∷ at 1
    ∷ at 6
    ∷ at 11
    ∷ []

-- One column of `_mix_columns`, in front of the columns after it.
pub mix_column : ℕ → ℕ → ℕ → ℕ → List ℕ → List ℕ
unfolding gmul
mix_column s0 s1 s2 s3 rest =
    bit_xor (bit_xor (bit_xor (gmul s0 2) (gmul s1 3)) s2) s3
    ∷ bit_xor (bit_xor (bit_xor s0 (gmul s1 2)) (gmul s2 3)) s3
    ∷ bit_xor (bit_xor (bit_xor s0 s1) (gmul s2 2)) (gmul s3 3)
    ∷ bit_xor (bit_xor (bit_xor (gmul s0 3) s1) s2) (gmul s3 2)
    ∷ rest

pub mix_columns : List ℕ → List ℕ
unfolding mix_column
mix_columns (s0 ∷ s1 ∷ s2 ∷ s3 ∷ rest) = mix_column s0 s1 s2 s3 (mix_columns rest)
mix_columns _ = []

pub add_round_key : List ℕ → List ℕ → List ℕ
unfolding zip_xor
add_round_key state round_key = zip_xor state round_key

-- The full rounds: one for each round key but the last, whose round has no MixColumns.
pub cipher_rounds : List ℕ → List (List ℕ) → List ℕ
unfolding sub_bytes shift_rows mix_columns add_round_key
cipher_rounds state [] = state
cipher_rounds state (k ∷ []) = add_round_key (shift_rows (sub_bytes state)) k
cipher_rounds state (k ∷ l ∷ ks) =
    cipher_rounds (add_round_key (mix_columns (shift_rows (sub_bytes state))) k) (l ∷ ks)

-- `AES.encrypt_block`, on the round keys that the object holds.
pub encrypt_state : List (List ℕ) → List ℕ → List ℕ
unfolding cipher_rounds add_round_key
encrypt_state [] block = block
encrypt_state (k ∷ ks) block = cipher_rounds (add_round_key block k) ks

-- The class `AES`: its round keys.
pub record Aes : Type 0 where
  pub round_keys : List (List ℕ)

unfoldable pub aes_init : List ℕ → Outcome Aes
unfolding key_expansion
aes_init key = do ks ← key_expansion key; ok (record { round_keys = ks })

unfoldable pub aes_encrypt_block : Aes → List ℕ → Outcome (List ℕ)
unfolding encrypt_state
aes_encrypt_block cipher block =
    if length block == 16 then ok (encrypt_state cipher.round_keys block) else raise value_error

-- The function `encrypt_block`.
unfoldable pub encrypt_block : List ℕ → List ℕ → Outcome (List ℕ)
unfolding key_expansion encrypt_state
encrypt_block key block =
    if length block == 16
    then (do ks ← key_expansion key; ok (encrypt_state ks block))
    else raise value_error
