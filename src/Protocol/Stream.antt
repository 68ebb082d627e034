-- ===== src/Protocol/Stream.antt =====
-- What `bufio.Reader`, `io.ReadFull` and `encoding/binary` do for ReadFrame. A stream is the list
-- of the bytes that the connection delivers before it ends.
use rmm.Base.{
  ℕ, ◌+◌, ◌*◌, ◌<◌, ◌≡◌, [], ◌∷◌, ◌++◌, Bytes, leb, ltb, text_eq, if◌then◌else◌, length, take, drop,
  arith, length-append, take-append_length, drop-append_length, length-take, ◌≢◌, inl, inr,
  take-append-drop, Bool-cases, append_assoc, sym,
}

pub data ReadError : Type 0 where
  eof unexpected_eof : ReadError

-- `panicked` is a run-time panic of the Go code.
pub data Outcome {ℓ} (A : Type ℓ) : Type ℓ where
  ok : A → Outcome A
  err : ReadError → Outcome A
  panicked : Outcome A

infixl 5 ◌>>=◌
abbrev pub ◌>>=◌ {ℓ κ} : {A : Type ℓ} {B : Type κ} → Outcome A → (A → Outcome B) → Outcome B
ok a >>= f = f a
err e >>= f = err e
panicked >>= f = panicked

-- `io.ReadFull` into a buffer of `n` bytes: the bytes read, and the stream that is left.
unfoldable pub read_full : ℕ → Bytes → Outcome (Bytes × Bytes)
read_full n r =
    if leb n (length r)
    then ok (take n r, drop n r)
    else if text_eq r []
    then err eof
    else err unexpected_eof

-- `make([]byte, length)` panics above the largest slice that the run time allocates.
unfoldable pub make_bytes : ℕ → ℕ → Outcome (Unit {0})
make_bytes max_alloc n = if ltb max_alloc n then panicked else ok tt

-- `binary.BigEndian.Uint16` and `Uint64`, on slices of 2 and of 8 bytes.
big_endian_from : ℕ → Bytes → ℕ
big_endian_from acc [] = acc
big_endian_from acc (b ∷ bs) = big_endian_from (acc * 256 + b) bs

unfoldable pub big_endian : Bytes → ℕ
unfolding big_endian_from
big_endian bs = big_endian_from 0 bs

pub read_full-append : (s r : Bytes) (n : ℕ) → n ≡ length s → read_full n (s ++ r) ≡ ok (s, r)
unfolding read_full
read_full-append s r n e =
    rw e (ground (arith, length-append s r, take-append_length s r, drop-append_length s r))

-- A successful read splits the stream after `n` bytes.
pub read_full_ok :
    (n : ℕ) (s a b : Bytes) → read_full n s ≡ ok (a, b) → (s ≡ a ++ b) × (length a ≡ n)
unfolding read_full
read_full_ok n s a b e = elim (Bool-cases (leb n (length s))) [
  | inl fits ↦ ground (arith, take-append-drop n s, length-take n s)
  | inr short ↦ ground arith
]

-- More input does not change a read that succeeded: it joins the rest.
pub read_full-append_ok :
    (n : ℕ) (s more a b : Bytes)
    → read_full n s ≡ ok (a, b)
    → read_full n (s ++ more) ≡ ok (a, b ++ more)
read_full-append_ok n s more a b e =
    let (split, len) = read_full_ok n s a b e in
    rw (split, append_assoc a b more) (read_full-append a (b ++ more) n (sym len))

-- Reading cannot panic.
pub read_full-ne-panicked : (n : ℕ) (s : Bytes) → read_full n s ≢ panicked
unfolding read_full
read_full-ne-panicked n s e = ground arith

pub read_full_short : (n : ℕ) (s : Bytes) → length s < n → (e : ReadError) × (read_full n s ≡ err e)
unfolding read_full
read_full_short n s h = elim (Bool-cases (text_eq s [])) [
  | inl e ↦ (eof, ground arith)
  | inr e ↦ (unexpected_eof, ground arith)
]
