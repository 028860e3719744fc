-- ===== src/Lxcpp/Relay/Buffers.antt =====
-- A buffer of the guard's relay (libs/lxcpp/guard/guard.cpp) is a queue: what is filled in comes behind what waits, and what
-- is drained leaves from the front.
use vasum.Prelude.{
  ℕ, zero, suc, ◌+◌, ◌-◌, ◌≤◌, ◌≡◌, refl, sym, ap, ◌∙◌, [], ◌∷◌, ◌++◌, Text, length, take, drop,
  arith,
}
use vasum.Lxcpp.Relay.{Buffer, buffer_size, write_front, write_at, fill, drain, waiting}

-- The array has its size, and the offset is within it.
pub record Fits (b : Buffer) : Type 0 where
  pub size : length b.bytes ≡ buffer_size
  pub within : b.offset ≤ buffer_size

length-write_front : (xs bs : Text) → length xs ≤ length bs → length (write_front xs bs) ≡ length bs
unfolding write_front
length-write_front [] bs h = refl
length-write_front (x ∷ xs) [] h = absurd (omega arith)
length-write_front (x ∷ xs) (b ∷ bs) h = omega (arith, length-write_front xs bs)

take-write_front :
    (xs bs : Text) → length xs ≤ length bs → take (length xs) (write_front xs bs) ≡ xs
unfolding write_front
take-write_front [] bs h = refl
take-write_front (x ∷ xs) [] h = absurd (omega arith)
take-write_front (x ∷ xs) (b ∷ bs) h = ap (λ l. x ∷ l) (take-write_front xs bs (omega arith))

length-write_at :
    (n : ℕ) (xs bs : Text) → n + length xs ≤ length bs → length (write_at n xs bs) ≡ length bs
unfolding write_at
length-write_at zero xs bs h = length-write_front xs bs (omega arith)
length-write_at (suc n) xs [] h = absurd (omega arith)
length-write_at (suc n) xs (b ∷ bs) h = omega (arith, length-write_at n xs bs)

take-write_at :
    (n : ℕ) (xs bs : Text)
    → n + length xs ≤ length bs
    → take (n + length xs) (write_at n xs bs) ≡ take n bs ++ xs
unfolding write_at
take-write_at zero xs bs h =
    let e : 0 + length xs ≡ length xs = omega arith in rw e (take-write_front xs bs (omega arith))
take-write_at (suc n) xs [] h = absurd (omega arith)
take-write_at (suc n) xs (b ∷ bs) h =
    let e : suc n + length xs ≡ suc (n + length xs) = omega arith in
    rw e (ap (λ l. b ∷ l) (take-write_at n xs bs (omega arith)))

length-drop : (n : ℕ) (bs : Text) → length (drop n bs) ≡ length bs - n
length-drop zero bs = omega arith
length-drop (suc n) [] = omega arith
length-drop (suc n) (b ∷ bs) = omega (arith, length-drop n bs)

pub length-take : (n : ℕ) (bs : Text) → n ≤ length bs → length (take n bs) ≡ n
length-take zero bs h = refl
length-take (suc n) [] h = absurd (omega arith)
length-take (suc n) (b ∷ bs) h = omega (arith, length-take n bs)

take-nil : (n : ℕ) → ◌≡◌ {A = Text} (take n []) []
take-nil zero = refl
take-nil (suc n) = refl

take-drop_swap : (k n : ℕ) (bs : Text) → k ≤ n → take (n - k) (drop k bs) ≡ drop k (take n bs)
take-drop_swap zero n bs h = let e : n - 0 ≡ n = omega arith in rw e refl
take-drop_swap (suc k) zero bs h = absurd (omega arith)
take-drop_swap (suc k) (suc n) [] h = take-nil (suc n - suc k)
take-drop_swap (suc k) (suc n) (b ∷ bs) h =
    let e : suc n - suc k ≡ n - k = omega arith in rw e (take-drop_swap k n bs (omega arith))

take-drop : (k : ℕ) (bs : Text) → take k bs ++ drop k bs ≡ bs
take-drop zero bs = refl
take-drop (suc k) [] = refl
take-drop (suc k) (b ∷ bs) = ap (λ l. b ∷ l) (take-drop k bs)

-- What is put in comes behind what waits.
module _ (b : Buffer) (got : Text) (f : Fits b) (room : b.offset + length got ≤ buffer_size) where
  pub fill-waiting : waiting (fill b got) ≡ waiting b ++ got
  unfolding fill
  fill-waiting = take-write_at b.offset got b.bytes (omega (arith, f.size))

  pub fill-Fits : Fits (fill b got)
  unfolding fill
  fill-Fits = record {
    size = length-write_at b.offset got b.bytes (omega (arith, f.size)) ∙ f.size;
    within = room;
  }

-- What is taken out is the front of what waits.
module _ (b : Buffer) (n : ℕ) (f : Fits b) (some_waits : n ≤ b.offset) where
  left : Text
  left = take (b.offset - n) (drop n b.bytes)

  length-left : length left ≡ b.offset - n
  unfolding left
  length-left =
      length-take (b.offset - n) (drop n b.bytes)
        (omega (arith, length-drop n b.bytes, f.size, f.within))

  pub drain-waiting : take n (waiting b) ++ waiting (drain b n) ≡ waiting b
  unfolding drain left
  drain-waiting =
      let fits : length left ≤ length b.bytes = omega (arith, length-left, f.size, f.within) in
      let same : waiting (drain b n) ≡ left =
        ap (λ k. take k (write_front left b.bytes)) (sym length-left)
        ∙ take-write_front left b.bytes fits in
      rw (same ∙ take-drop_swap n b.offset b.bytes some_waits) (take-drop n (waiting b))

  pub drain-Fits : Fits (drain b n)
  unfolding drain left
  drain-Fits = record {
    size = length-write_front left b.bytes (omega (arith, length-left, f.size, f.within)) ∙ f.size;
    within = omega (arith, f.within);
  }
