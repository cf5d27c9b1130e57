-- ===== src/Crypto/Aes/Lengths.antt =====
-- Sizes in the AES key schedule and in a block's encryption.
use crypto_project.Base.{
  ℕ, zero, suc, ◌+◌, ◌-◌, ◌*◌, ◌/◌, ◌%◌, ◌≤◌, ◌<◌, List, [], ◌∷◌, ◌++◌, length, drop, get_or, All,
  All-append, length-append, length-take, length-drop, length-map, Outcome, ok, raise, ◌==◌, ◌≡◌,
  refl, ◌∙◌, arith, ==_iff, value_error, if_both, ltb, ◌&&◌, ◌≢◌,
}
use crypto_project.Bytes.{zip_xor}
use crypto_project.Bytes.Laws.{length-zip_xor}
use crypto_project.Crypto.Aes.{
  sub_word, rot_word, add_rcon, schedule_core, expand, key_words, group_keys, key_schedule,
  key_expansion, rcon,
}

abbrev pub IsWord : List ℕ → Type 0
IsWord w = length w ≡ 4

abbrev pub IsBlock : List ℕ → Type 0
IsBlock b = length b ≡ 16

rot_word-IsWord : (w : List ℕ) → IsWord w → IsWord (rot_word w)
unfolding rot_word
rot_word-IsWord w h = rw length-append (omega (arith, length-drop 1 w, length-take 1 w))

add_rcon-IsWord : (r : ℕ) (w : List ℕ) → IsWord w → IsWord (add_rcon r w)
unfolding add_rcon
add_rcon-IsWord r w h = omega (arith, length-drop 1 w)

sub_word-IsWord : (w : List ℕ) → IsWord w → IsWord (sub_word w)
unfolding sub_word
sub_word-IsWord w h = length-map _ w ∙ h

schedule_core-IsWord : (nk i : ℕ) (w : List ℕ) → IsWord w → IsWord (schedule_core nk i w)
unfolding schedule_core
schedule_core-IsWord nk i w h =
    if_both IsWord (i % nk == 0) _ _
      (add_rcon-IsWord (get_or rcon (i / nk) 0) _ (sub_word-IsWord _ (rot_word-IsWord w h)))
      (if_both IsWord (ltb 6 nk && i % nk == 4) _ w (sub_word-IsWord w h) h)

get_or-All {ℓ} :
    {A : Type ℓ} (P : A → Type 0) (xs : List A) (i : ℕ) (d : A)
    → All P xs
    → i < length xs
    → P (get_or xs i d)
get_or-All P [] i d h lt = absurd (omega arith)
get_or-All P (x ∷ xs) zero d h lt = h.0
get_or-All P (x ∷ xs) (suc i) d h lt = get_or-All P xs i d h.1 (omega arith)

-- The word that one round of `expand` appends.
next_word : ℕ → List (List ℕ) → List ℕ
next_word nk words =
    zip_xor (get_or words (length words - nk) [])
      (schedule_core nk (length words) (get_or words (length words - 1) []))

next_word-IsWord :
    (nk : ℕ) (words : List (List ℕ))
    → 0 < nk
    → nk ≤ length words
    → All IsWord words
    → IsWord (next_word nk words)
unfolding next_word
next_word-IsWord nk words p q h = omega (
  arith,
  length-zip_xor (get_or words (length words - nk) [])
      (schedule_core nk (length words) (get_or words (length words - 1) [])),
  get_or-All IsWord words (length words - nk) [] h (omega arith),
  schedule_core-IsWord nk (length words) _
      (get_or-All IsWord words (length words - 1) [] h (omega arith)),
)

expand-suc :
    (n nk : ℕ) (words : List (List ℕ))
    → expand (suc n) nk words ≡ expand n nk (words ++ (next_word nk words ∷ []))
unfolding expand next_word
expand-suc n nk words = refl

expand-IsWord :
    (n nk : ℕ) (words : List (List ℕ))
    → 0 < nk
    → nk ≤ length words
    → All IsWord words
    → All IsWord (expand n nk words) × (length (expand n nk words) ≡ length words + n)
expand-IsWord zero nk words p q h = unfold expand in (h, omega arith)
expand-IsWord (suc n) nk words p q h =
    let more = words ++ (next_word nk words ∷ []) in
    let size = length-append words (next_word nk words ∷ []) in
    let (all, sum) =
      expand-IsWord n nk more p (omega (arith, size))
        (All-append IsWord words _ h (next_word-IsWord nk words p q h, tt)) in
    (rw expand-suc all, rw expand-suc (omega (arith, sum, size)))

key_words-IsWord :
    (n : ℕ) (key : List ℕ)
    → length key ≡ 4 * n
    → All IsWord (key_words n key) × (length (key_words n key) ≡ n)
unfolding key_words
key_words-IsWord zero key h = (tt, refl)
key_words-IsWord (suc n) key h =
    let (all, size) = key_words-IsWord n (drop 4 key) (omega (arith, length-drop 4 key)) in
    ((omega (arith, length-take 4 key), all), omega arith)

group_keys-IsBlock :
    (n : ℕ) (words : List (List ℕ))
    → All IsWord words
    → length words ≡ 4 * n
    → All IsBlock (group_keys n words) × (length (group_keys n words) ≡ n)
unfolding group_keys
group_keys-IsBlock zero words h e = (tt, refl)
group_keys-IsBlock (suc n) (a ∷ b ∷ c ∷ d ∷ words) h e =
    let (all, size) = group_keys-IsBlock n words h.1.1.1.1 (omega arith) in
    (
      (
        omega (
          arith,
          length-append a (b ++ (c ++ d)),
          length-append b (c ++ d),
          length-append c d,
          h.0,
          h.1.0,
          h.1.1.0,
          h.1.1.1.0,
        ),
        all,
      ),
      omega arith,
    )
group_keys-IsBlock (suc n) [] h e = absurd (omega arith)
group_keys-IsBlock (suc n) (a ∷ []) h e = absurd (omega arith)
group_keys-IsBlock (suc n) (a ∷ b ∷ []) h e = absurd (omega arith)
group_keys-IsBlock (suc n) (a ∷ b ∷ c ∷ []) h e = absurd (omega arith)

key_schedule-IsBlock :
    (nk nr : ℕ) (key : List ℕ)
    → 0 < nk
    → nk ≤ 4 * (nr + 1)
    → length key ≡ 4 * nk
    → All IsBlock (key_schedule nk nr key) × (length (key_schedule nk nr key) ≡ nr + 1)
unfolding key_schedule
key_schedule-IsBlock nk nr key p q e =
    let (all, size) = key_words-IsWord nk key e in
    let (all', size') =
      expand-IsWord (4 * (nr + 1) - nk) nk (key_words nk key) p (omega (arith, size)) all in
    group_keys-IsBlock (nr + 1) _ all' (omega (arith, size, size'))

abbrev pub HasRoundKeys : ℕ → Outcome (List (List ℕ)) → Type 0
HasRoundKeys n r = (ks : List (List ℕ)) × (r ≡ ok ks) × All IsBlock ks × (length ks ≡ n)

-- A key of 16 bytes gives 11 round keys of 16 bytes each, one of 32 bytes gives 15, and every
-- other length raises ValueError.
pub key_expansion_lem :
    (key : List ℕ)
    → (length key ≡ 16 → HasRoundKeys 11 (key_expansion key))
      × (length key ≡ 32 → HasRoundKeys 15 (key_expansion key))
      × (length key ≢ 16 → length key ≢ 32 → key_expansion key ≡ raise value_error)
unfolding key_expansion
key_expansion_lem key = (
  (λ e.
      let (all, size) = key_schedule-IsBlock 4 10 key (omega arith) (omega arith) (omega arith) in
      (key_schedule 4 10 key, rw e, all, size)),
  (λ e.
      let (all, size) = key_schedule-IsBlock 8 14 key (omega arith) (omega arith) (omega arith) in
      (key_schedule 8 14 key, rw e, all, size)),
  (λ p q. ground (arith, ==_iff (length key) 16, ==_iff (length key) 32)),
)
