-- ===== src/Wire.antt =====
-- encoding/binary.LittleEndian as wal.go and snapshot.go use it, and io.ReadFull on what a reader
-- still holds. A byte slice is a list of numbers.
use go.Prelude.{ℕ, zero, suc, ◌+◌, ◌*◌, ◌/◌, ◌%◌, ◌^◌, ◌<◌, ◌≡◌, refl, ap, arith}
use go.Prelude.{
  List, [], ◌∷◌, ◌++◌, length, length-append, take, drop, take-append, drop-append, All,
}
use go.Prelude.{
  Option, none, some, ltb, ge→ltb, if◌then◌else◌, Bool, true, false, ◌==◌, ◌&&◌, ◌↔◌, subst,
}

abbrev pub Bytes : Type 0
Bytes = List ℕ

abbrev pub IsByte : ℕ → Type 0
IsByte b = b < 256

-- `PutUint16`, `PutUint32`, `PutUint64`: the low `w` bytes of `v`, lowest first.
unfoldable pub put_le : ℕ → ℕ → Bytes
put_le zero v = []
put_le (suc w) v = (v % 256) ∷ put_le w (v / 256)

-- `Uint16`, `Uint32`, `Uint64`
unfoldable pub le : Bytes → ℕ
le [] = 0
le (b ∷ bs) = b + 256 * le bs

pub length-put_le : (w v : ℕ) → length (put_le w v) ≡ w
unfolding put_le
length-put_le zero v = refl
length-put_le (suc w) v = ap suc (length-put_le w (v / 256))

pub le-put_le : (w v : ℕ) → v < 256 ^ w → le (put_le w v) ≡ v
unfolding put_le le
le-put_le zero v h = omega arith
le-put_le (suc w) v h = omega (arith, le-put_le w (v / 256) (omega arith))

pub put_le-IsByte : (w v : ℕ) → All IsByte (put_le w v)
unfolding put_le
put_le-IsByte zero v = tt
put_le-IsByte (suc w) v = (omega arith, put_le-IsByte w (v / 256))

-- A field of `w` bytes in front of other bytes.
pub take-put_le : (w v : ℕ) (rest : Bytes) → take w (put_le w v ++ rest) ≡ put_le w v
take-put_le w v rest = take-append w (put_le w v) rest (length-put_le w v)

pub drop-put_le : (w v : ℕ) (rest : Bytes) → drop w (put_le w v ++ rest) ≡ rest
drop-put_le w v rest = drop-append w (put_le w v) rest (length-put_le w v)

-- `io.ReadFull(reader, buffer)` with a buffer of `n` bytes: what it filled, and what the reader
-- still holds; `none` is io.ErrUnexpectedEOF (or io.EOF).
unfoldable pub read_full : ℕ → Bytes → Option (Bytes × Bytes)
read_full n bs = if ltb (length bs) n then none else some (take n bs, drop n bs)

pub read_full-append :
    (n : ℕ) (front rest : Bytes)
    → length front ≡ n
    → read_full n (front ++ rest) ≡ some (front, rest)
unfolding read_full
read_full-append n front rest h = rw (
  ge→ltb (length (front ++ rest)) n (omega (arith, length-append front rest)),
  take-append n front rest h,
  drop-append n front rest h,
)

pub le-lt : (w : ℕ) (bs : Bytes) → All IsByte bs → length bs ≡ w → le bs < 256 ^ w
unfolding le
le-lt zero [] h e = omega arith
le-lt zero (b ∷ bs) h e = absurd (omega arith)
le-lt (suc w) [] h e = absurd (omega arith)
le-lt (suc w) (b ∷ bs) (hb, h) e = omega (arith, le-lt w bs h (omega arith))

-- Go's `==` on byte strings.
unfoldable pub bytes_eq : Bytes → Bytes → Bool
bytes_eq [] [] = true
bytes_eq [] (b ∷ bs) = false
bytes_eq (a ∷ as') [] = false
bytes_eq (a ∷ as') (b ∷ bs) = (a == b) && bytes_eq as' bs

bytes_eq_refl : (a : Bytes) → bytes_eq a a ≡ true
unfolding bytes_eq
bytes_eq_refl [] = refl
bytes_eq_refl (x ∷ a) = ground (arith, bytes_eq_refl a)

bytes_eq_sound : (a b : Bytes) → bytes_eq a b ≡ true → a ≡ b
unfolding bytes_eq
bytes_eq_sound [] [] h = refl
bytes_eq_sound [] (y ∷ b) h = cc
bytes_eq_sound (x ∷ a) [] h = cc
bytes_eq_sound (x ∷ a) (y ∷ b) h = ground (arith, bytes_eq_sound a b)

pub bytes_eq_iff : (a b : Bytes) → (bytes_eq a b ≡ true) ↔ (a ≡ b)
bytes_eq_iff a b = (bytes_eq_sound a b, λ e. subst (λ c. bytes_eq a c ≡ true) e (bytes_eq_refl a))
