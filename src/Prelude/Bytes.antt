-- ===== src/Prelude/Bytes.antt =====
-- Lists of bytes, and blocks of memory that hold them.
use Prim.Native.Nat.{ℕ, zero, suc, ◌+◌, ◌*◌, ◌/◌, ◌%◌, ◌≤◌, ◌<◌, min}
use mathlib.Core.Path.{◌≡◌, refl, ap}
use mathlib.Core.List.{List, [], ◌∷◌, ◌++◌}
use mathlib.Core.Logic.{◌⊎◌}
use native.Mathlib.Omega.{arith}
use tcpframe.Prelude.Tests.{update}

module _ {ℓ} {A : Type ℓ} where
  abbrev pub length : List A → ℕ
  length [] = 0
  length (x ∷ xs) = suc (length xs)

  abbrev pub take : ℕ → List A → List A
  take zero xs = []
  take (suc n) [] = []
  take (suc n) (x ∷ xs) = x ∷ take n xs

  abbrev pub drop : ℕ → List A → List A
  drop zero xs = xs
  drop (suc n) [] = []
  drop (suc n) (x ∷ xs) = drop n xs

  abbrev pub replicate : ℕ → A → List A
  replicate zero a = []
  replicate (suc n) a = a ∷ replicate n a

  pub length-append : (xs ys : List A) → length (xs ++ ys) ≡ length xs + length ys
  length-append [] ys = omega arith
  length-append (x ∷ xs) ys = omega (arith, length-append xs ys)

  pub length-take : (n : ℕ) (xs : List A) → length (take n xs) ≡ min n (length xs)
  length-take zero xs = omega arith
  length-take (suc n) [] = omega arith
  length-take (suc n) (x ∷ xs) = omega (arith, length-take n xs)

-- The bytes of a block from `pos` on: memcpy out of it, and memcpy into it.
unfoldable pub read_at : (ℕ → ℕ) → ℕ → ℕ → List ℕ
read_at m pos zero = []
read_at m pos (suc n) = m pos ∷ read_at m (suc pos) n

unfoldable pub write_at : (ℕ → ℕ) → ℕ → List ℕ → ℕ → ℕ
write_at m pos [] = m
write_at m pos (b ∷ bs) = write_at (update m pos b) (suc pos) bs

pub length-read_at : (m : ℕ → ℕ) (pos n : ℕ) → length (read_at m pos n) ≡ n
unfolding read_at
length-read_at m pos zero = refl
length-read_at m pos (suc n) = ap suc (length-read_at m (suc pos) n)

-- A write leaves every other cell.
pub write_at_outside :
    (m : ℕ → ℕ) (pos : ℕ) (bs : List ℕ) (i : ℕ)
    → (i < pos) ⊎ (pos + length bs ≤ i)
    → write_at m pos bs i ≡ m i
unfolding write_at
write_at_outside m pos [] i out = refl
write_at_outside m pos (b ∷ bs) i out =
    ground (arith, write_at_outside (update m pos b) (suc pos) bs i)

pub read_at_ext :
    (m m' : ℕ → ℕ) (pos n : ℕ)
    → ((i : ℕ) → pos ≤ i → i < pos + n → m' i ≡ m i)
    → read_at m' pos n ≡ read_at m pos n
unfolding read_at
read_at_ext m m' pos zero same = refl
read_at_ext m m' pos (suc n) same =
    ground
      (arith, same pos, read_at_ext m m' (suc pos) n (λ i p q. same i (omega arith) (omega arith)))

-- What is written is read back, and a read elsewhere is not changed.
pub read_at-write_at :
    (m : ℕ → ℕ) (pos : ℕ) (bs : List ℕ) → read_at (write_at m pos bs) pos (length bs) ≡ bs
unfolding read_at write_at
read_at-write_at m pos [] = refl
read_at-write_at m pos (b ∷ bs) = ground (
  arith,
  write_at_outside (update m pos b) (suc pos) bs pos,
  read_at-write_at (update m pos b) (suc pos) bs,
)

pub read_at-write_at_other :
    (m : ℕ → ℕ) (pos : ℕ) (bs : List ℕ) (from n : ℕ)
    → (from + n ≤ pos) ⊎ (pos + length bs ≤ from)
    → read_at (write_at m pos bs) from n ≡ read_at m from n
read_at-write_at_other m pos bs from n apart =
    read_at_ext m (write_at m pos bs) from n λ i p q. write_at_outside m pos bs i (ground arith)

pub read_at_split :
    (m : ℕ → ℕ) (pos a b : ℕ) → read_at m pos (a + b) ≡ read_at m pos a ++ read_at m (pos + a) b
unfolding read_at
read_at_split m pos zero b =
    let e : zero + b ≡ b = omega arith in let f : pos + zero ≡ pos = omega arith in rw (e, f)
read_at_split m pos (suc a) b =
    let e : suc a + b ≡ suc (a + b) = omega arith in
    let f : pos + suc a ≡ suc pos + a = omega arith in
    rw (e, f) (ap (◌∷◌ (m pos)) (read_at_split m (suc pos) a b))

-- htonl and ntohl with memcpy: a 32-bit word as its bytes, the highest first.
unfoldable pub encode32 : ℕ → List ℕ
encode32 x = x / 16777216 % 256 ∷ x / 65536 % 256 ∷ x / 256 % 256 ∷ x % 256 ∷ []

unfoldable pub get32 : (ℕ → ℕ) → ℕ → ℕ
get32 m pos = ((m pos * 256 + m (pos + 1)) * 256 + m (pos + 2)) * 256 + m (pos + 3)

unfoldable pub put32 : (ℕ → ℕ) → ℕ → ℕ → ℕ → ℕ
put32 m pos x = write_at m pos (encode32 x)

pub get32-put32 : (m : ℕ → ℕ) (pos x : ℕ) → x < 4294967296 → get32 (put32 m pos x) pos ≡ x
unfolding get32 put32 encode32 write_at
get32-put32 m pos x lt = ground arith
