-- ===== src/Wire/Frame/Chunks.antt =====
-- `_recv_exact` gives the bytes that were sent, in whatever pieces they arrive.
use crypto_project.Base.{
  ℕ, zero, suc, ◌-◌, ◌≤◌, ◌<◌, min, List, [], ◌∷◌, ◌++◌, length, length-append, length-take,
  append_assoc, take, drop, take-append-drop, All, Outcome, ok, raise, connection_error, ◌≡◌, ◌≢◌,
  refl, sym, ap, ◌∙◌, arith,
}
use mathlib.Core.Path.{subst}
use crypto_project.Wire.Frame.{Socket, push, recv, after_recv, recv_loop, recv_exact}

-- All the bytes that arrive.
unfoldable pub bytes_of : Socket → List ℕ
bytes_of [] = []
bytes_of (piece ∷ pieces) = piece ++ bytes_of pieces

-- No piece is empty: the peer has not closed.
abbrev pub IsOpen : Socket → Type 0
IsOpen = All (λ piece. piece ≢ [])

bytes_of-push :
    (piece : List ℕ) (pieces : Socket) → bytes_of (push piece pieces) ≡ piece ++ bytes_of pieces
unfolding bytes_of push
bytes_of-push [] pieces = refl
bytes_of-push (b ∷ bs) pieces = refl

push-IsOpen : (piece : List ℕ) (pieces : Socket) → IsOpen pieces → IsOpen (push piece pieces)
unfolding push
push-IsOpen [] pieces h = h
push-IsOpen (b ∷ bs) pieces h = (λ e. cc e, h)

suc-min : (m : ℕ) → suc (min m 65535) ≡ min (suc m) 65536
suc-min m = omega arith

-- A turn of the loop on a piece that is not empty.
recv_turn :
    (fuel m b : ℕ) (got bs : List ℕ) (pieces : Socket)
    → recv_loop fuel
        (suc m - suc (length (take (min m 65535) bs)))
        (got ++ (b ∷ take (min m 65535) bs))
        (push (drop (min m 65535) bs) pieces)
      ≡ recv_loop (suc fuel) (suc m) got ((b ∷ bs) ∷ pieces)
unfolding recv_loop recv after_recv
recv_turn fuel m b got bs pieces =
    subst
      (λ k.
        recv_loop fuel (suc m - suc (length (take (min m 65535) bs)))
          (got ++ (b ∷ take (min m 65535) bs)) (push (drop (min m 65535) bs) pieces)
        ≡ after_recv (recv k ((b ∷ bs) ∷ pieces))
            (λ chunk left. recv_loop fuel (suc m - length chunk) (got ++ chunk) left))
      (suc-min m) refl

pub record IsReceived (n : ℕ) (got : List ℕ) (s : Socket) (m : Outcome (List ℕ × Socket))
    : Type 0 where
  pub left : Socket
  pub returns : m ≡ ok (got ++ take n (bytes_of s), left)
  pub rest : bytes_of left ≡ drop n (bytes_of s)
  pub is_open : IsOpen left

take-append_long :
    {A : Type 0} (n : ℕ) (xs ys : List A)
    → length xs ≤ n
    → take n (xs ++ ys) ≡ xs ++ take (n - length xs) ys
take-append_long n [] ys h = ap (λ k. take k ys) (omega arith)
take-append_long zero (x ∷ xs) ys h = absurd (omega arith)
take-append_long (suc n) (x ∷ xs) ys h =
    ap (◌∷◌ x) (take-append_long n xs ys (omega arith) ∙ ap (λ k. xs ++ take k ys) (omega arith))

drop-append_long :
    {A : Type 0} (n : ℕ) (xs ys : List A)
    → length xs ≤ n
    → drop n (xs ++ ys) ≡ drop (n - length xs) ys
drop-append_long n [] ys h = ap (λ k. drop k ys) (omega arith)
drop-append_long zero (x ∷ xs) ys h = absurd (omega arith)
drop-append_long (suc n) (x ∷ xs) ys h =
    drop-append_long n xs ys (omega arith) ∙ ap (λ k. drop k ys) (omega arith)

module _ (m b : ℕ) (bs : List ℕ) (pieces : Socket) where
  abbrev chunk : List ℕ
  chunk = b ∷ take (min m 65535) bs

  abbrev after_chunk : Socket
  after_chunk = push (drop (min m 65535) bs) pieces

  chunk_fits : length chunk ≤ suc m
  chunk_fits = omega (arith, length-take (min m 65535) bs)

  chunk_first : bytes_of ((b ∷ bs) ∷ pieces) ≡ chunk ++ bytes_of after_chunk
  unfolding bytes_of
  chunk_first =
      ap (λ z. b ∷ (z ++ bytes_of pieces)) (sym (take-append-drop (min m 65535) bs))
      ∙ ap (◌∷◌ b) (append_assoc (take (min m 65535) bs) (drop (min m 65535) bs) (bytes_of pieces))
      ∙ ap (λ z. chunk ++ z) (sym (bytes_of-push (drop (min m 65535) bs) pieces))

  -- What the loop receives after the chunk, with the chunk.
  turn-IsReceived :
      (fuel : ℕ) (got : List ℕ)
      → IsReceived
          (suc m - length chunk)
          (got ++ chunk)
          after_chunk
          (recv_loop fuel (suc m - length chunk) (got ++ chunk) after_chunk)
      → IsReceived
          (suc m)
          got
          ((b ∷ bs) ∷ pieces)
          (recv_loop (suc fuel) (suc m) got ((b ∷ bs) ∷ pieces))
  turn-IsReceived fuel got r = record {
    left = r.left;
    returns =
        sym (recv_turn fuel m b got bs pieces)
        ∙ r.returns
        ∙ ap (λ z. ok (z, r.left))
            (append_assoc got chunk (take (suc m - length chunk) (bytes_of after_chunk))
              ∙ ap (λ z. got ++ z)
                  (sym (take-append_long (suc m) chunk (bytes_of after_chunk) chunk_fits)
                    ∙ ap (take (suc m)) (sym chunk_first)));
    rest =
        r.rest
        ∙ sym (drop-append_long (suc m) chunk (bytes_of after_chunk) chunk_fits)
        ∙ ap (drop (suc m)) (sym chunk_first);
    is_open = r.is_open;
  }

  enough_left :
      suc m ≤ length (bytes_of ((b ∷ bs) ∷ pieces))
      → suc m - length chunk ≤ length (bytes_of after_chunk)
  enough_left h =
      omega
        (arith, h, ap length chunk_first, length-append chunk (bytes_of after_chunk), chunk_fits)

  short_left :
      length (bytes_of ((b ∷ bs) ∷ pieces)) < suc m
      → length (bytes_of after_chunk) < suc m - length chunk
  short_left h =
      omega
        (arith, h, ap length chunk_first, length-append chunk (bytes_of after_chunk), chunk_fits)

append_nil : {A : Type 0} (xs : List A) → xs ≡ xs ++ []
append_nil [] = refl
append_nil (x ∷ xs) = ap (◌∷◌ x) (append_nil xs)

recv_loop-IsReceived :
    (fuel n : ℕ) (got : List ℕ) (s : Socket)
    → n ≤ fuel
    → n ≤ length (bytes_of s)
    → IsOpen s
    → IsReceived n got s (recv_loop fuel n got s)
unfolding recv_loop bytes_of
recv_loop-IsReceived fuel zero got s h k o = record {
  left = s;
  returns = ap (λ z. ok (z, s)) (append_nil got);
  rest = refl;
  is_open = o;
}
recv_loop-IsReceived zero (suc m) got s h k o = absurd (omega arith)
recv_loop-IsReceived (suc fuel) (suc m) got [] h k o = absurd (omega arith)
recv_loop-IsReceived (suc fuel) (suc m) got ([] ∷ pieces) h k o = absurd (o.0 refl)
recv_loop-IsReceived (suc fuel) (suc m) got ((b ∷ bs) ∷ pieces) h k o =
    turn-IsReceived m b bs pieces fuel got (
      recv_loop-IsReceived fuel (suc m - length (chunk m b bs pieces)) (got ++ chunk m b bs pieces)
        (after_chunk m b bs pieces) (omega arith) (enough_left m b bs pieces k)
        (push-IsOpen (drop (min m 65535) bs) pieces o.1))

recv_loop-short :
    (fuel n : ℕ) (got : List ℕ) (s : Socket)
    → n ≤ fuel
    → length (bytes_of s) < n
    → IsOpen s
    → recv_loop fuel n got s ≡ raise connection_error
unfolding recv_loop bytes_of recv after_recv
recv_loop-short fuel zero got s h k o = absurd (omega arith)
recv_loop-short zero (suc m) got s h k o = absurd (omega arith)
recv_loop-short (suc fuel) (suc m) got [] h k o = refl
recv_loop-short (suc fuel) (suc m) got ([] ∷ pieces) h k o = absurd (o.0 refl)
recv_loop-short (suc fuel) (suc m) got ((b ∷ bs) ∷ pieces) h k o =
    sym (recv_turn fuel m b got bs pieces)
    ∙ recv_loop-short fuel (suc m - length (chunk m b bs pieces)) (got ++ chunk m b bs pieces)
        (after_chunk m b bs pieces) (omega arith) (short_left m b bs pieces k)
        (push-IsOpen (drop (min m 65535) bs) pieces o.1)

-- From bytes in any pieces that are not empty, `_recv_exact` takes the first `n`, if there are so
-- many, and leaves the others.
pub recv_exact-prefix :
    (n : ℕ) (s : Socket)
    → n ≤ length (bytes_of s)
    → IsOpen s
    → (left : Socket) × (recv_exact n s ≡ ok (take n (bytes_of s), left))
      × (bytes_of left ≡ drop n (bytes_of s))
      × IsOpen left
unfolding recv_exact
recv_exact-prefix n s h o =
    let r = recv_loop-IsReceived n n [] s (omega arith) h o in
    (r.left, r.returns, r.rest, r.is_open)

-- If the peer closes before `n` bytes have come, in whatever pieces, `_recv_exact` raises
-- ConnectionError.
pub recv_exact-short :
    (n : ℕ) (s : Socket)
    → length (bytes_of s) < n
    → IsOpen s
    → recv_exact n s ≡ raise connection_error
unfolding recv_exact
recv_exact-short n s h o = recv_loop-short n n [] s (omega arith) h o
