-- ===== src/RecordPool/Files.antt =====
-- The page files of internal/recordpool: `os.File`'s ReadAt and WriteAt on the bytes of a file.
use gocacheprog.Prelude.{
  ℕ, zero, suc, ◌+◌, ◌≤◌, ◌≡◌, refl, ap, Option, none, some, List, [], ◌∷◌, arith, leb,
  if◌then◌else◌, length, take, drop,
}

unfoldable pub overwrite : List ℕ → List ℕ → List ℕ
overwrite f [] = f
overwrite [] (b ∷ bs) = b ∷ bs
overwrite (x ∷ f) (b ∷ bs) = b ∷ overwrite f bs

-- A write past the end fills the gap with zeroes.
unfoldable pub write_at : List ℕ → ℕ → List ℕ → List ℕ
unfolding overwrite
write_at f zero bs = overwrite f bs
write_at [] (suc o) bs = 0 ∷ write_at [] o bs
write_at (x ∷ f) (suc o) bs = x ∷ write_at f o bs

-- A read that meets the end of the file before `n` bytes is an error.
unfoldable pub read_at : List ℕ → ℕ → ℕ → Option (List ℕ)
read_at f o n = if leb (o + n) (length f) then some (take n (drop o f)) else none

length-overwrite : (f bs : List ℕ) → length bs ≤ length f → length (overwrite f bs) ≡ length f
unfolding overwrite
length-overwrite f [] h = refl
length-overwrite [] (b ∷ bs) h = elim h [ ]
length-overwrite (x ∷ f) (b ∷ bs) h = ap suc (length-overwrite f bs (omega arith))

pub length-write_at :
    (f : List ℕ) (o : ℕ) (bs : List ℕ)
    → o + length bs ≤ length f
    → length (write_at f o bs) ≡ length f
unfolding write_at
length-write_at f zero bs h = length-overwrite f bs (omega arith)
length-write_at [] (suc o) bs h = absurd (omega arith)
length-write_at (x ∷ f) (suc o) bs h = ap suc (length-write_at f o bs (omega arith))

take-overwrite : (f bs : List ℕ) → take (length bs) (overwrite f bs) ≡ bs
unfolding overwrite
take-overwrite f [] = refl
take-overwrite [] (b ∷ bs) = ap (◌∷◌ b) (take-length bs)
  where
    take-length : (l : List ℕ) → take (length l) l ≡ l
    take-length [] = refl
    take-length (x ∷ l) = ap (◌∷◌ x) (take-length l)
take-overwrite (x ∷ f) (b ∷ bs) = ap (◌∷◌ b) (take-overwrite f bs)

drop-write_at_self :
    (f : List ℕ) (o : ℕ) (bs : List ℕ) → take (length bs) (drop o (write_at f o bs)) ≡ bs
unfolding write_at
drop-write_at_self f zero bs = take-overwrite f bs
drop-write_at_self [] (suc o) bs = drop-write_at_self [] o bs
drop-write_at_self (x ∷ f) (suc o) bs = drop-write_at_self f o bs

drop-overwrite : (f bs : List ℕ) (i : ℕ) → length bs ≤ i → drop i (overwrite f bs) ≡ drop i f
unfolding overwrite
drop-overwrite f [] i h = refl
drop-overwrite f (b ∷ bs) zero h = absurd (omega arith)
drop-overwrite [] (b ∷ bs) (suc i) h = drop-long bs i (omega arith)
  where
    drop-long : (l : List ℕ) (n : ℕ) → length l ≤ n → drop n l ≡ []
    drop-long [] zero k = refl
    drop-long [] (suc n) k = refl
    drop-long (x ∷ l) zero k = absurd (omega arith)
    drop-long (x ∷ l) (suc n) k = drop-long l n (omega arith)
drop-overwrite (x ∷ f) (b ∷ bs) (suc i) h = drop-overwrite f bs i (omega arith)

drop-write_at_after :
    (f : List ℕ) (o : ℕ) (bs : List ℕ) (i : ℕ)
    → o + length bs ≤ i
    → o ≤ length f
    → drop i (write_at f o bs) ≡ drop i f
unfolding write_at
drop-write_at_after f zero bs i h k = drop-overwrite f bs i (omega arith)
drop-write_at_after f (suc o) bs zero h k = absurd (omega arith)
drop-write_at_after [] (suc o) bs (suc i) h k = absurd (omega arith)
drop-write_at_after (x ∷ f) (suc o) bs (suc i) h k =
    drop-write_at_after f o bs i (omega arith) (omega arith)

take-write_at_before :
    (f : List ℕ) (o : ℕ) (bs : List ℕ) (i n : ℕ)
    → i + n ≤ o
    → o ≤ length f
    → take n (drop i (write_at f o bs)) ≡ take n (drop i f)
unfolding write_at
take-write_at_before f o bs i zero h k = refl
take-write_at_before f zero bs i (suc n) h k = absurd (omega arith)
take-write_at_before [] (suc o) bs i (suc n) h k = absurd (omega arith)
take-write_at_before (x ∷ f) (suc o) bs zero (suc n) h k =
    ap (◌∷◌ x) (take-write_at_before f o bs zero n (omega arith) (omega arith))
take-write_at_before (x ∷ f) (suc o) bs (suc i) (suc n) h k =
    take-write_at_before f o bs i (suc n) (omega arith) (omega arith)

-- What was written is read back.
pub read_at-write_at_self :
    (f : List ℕ) (o : ℕ) (bs : List ℕ)
    → o + length bs ≤ length f
    → read_at (write_at f o bs) o (length bs) ≡ some bs
unfolding read_at
read_at-write_at_self f o bs h = ground (arith, length-write_at f o bs h, drop-write_at_self f o bs)

-- A write leaves alone what ends before it or begins behind it.
pub read_at-write_at_before :
    (f : List ℕ) (o : ℕ) (bs : List ℕ) (i n : ℕ)
    → o + length bs ≤ length f
    → i + n ≤ o
    → read_at (write_at f o bs) i n ≡ read_at f i n
unfolding read_at
read_at-write_at_before f o bs i n h k =
    rw (length-write_at f o bs h, take-write_at_before f o bs i n k (omega arith))

pub read_at-write_at_after :
    (f : List ℕ) (o : ℕ) (bs : List ℕ) (i n : ℕ)
    → o + length bs ≤ length f
    → o + length bs ≤ i
    → read_at (write_at f o bs) i n ≡ read_at f i n
unfolding read_at
read_at-write_at_after f o bs i n h k =
    rw (length-write_at f o bs h, drop-write_at_after f o bs i k (omega arith))
