-- ===== src/Protocol/Reader.antt =====
-- Readers of a stream in general: what a step may do with its input, and that a sequence of such
-- steps does the same.
use rmm.Base.{
  ◌≡◌, refl, Bool, true, false, if◌then◌else◌, ◌⊎◌, inl, inr, [], ◌∷◌, ◌++◌, Bytes, append_assoc,
  ap, ◌∙◌, sym, arith, length-append, ℕ,
}
use rmm.Protocol.Stream.{
  Outcome, ok, err, panicked, ReadError, ◌>>=◌, read_full, read_full_ok, read_full-append_ok,
  read_full-ne-panicked,
}

abbrev pub Reader {ℓ} : Type ℓ → Type ℓ
Reader A = Bytes → Outcome (A × Bytes)

-- A reader takes bytes off the front, and decides on those bytes alone: input that comes behind
-- them changes neither a result nor a panic.
pub record IsReader {ℓ} {A : Type ℓ} (m : Reader A) : Type ℓ where
  pub takes : (s : Bytes) (a : A) (r : Bytes) → m s ≡ ok (a, r) → (front : Bytes) × (s ≡ front ++ r)
  pub extends :
      (s more : Bytes) (a : A) (r : Bytes) → m s ≡ ok (a, r) → m (s ++ more) ≡ ok (a, r ++ more)
  pub panics : (s more : Bytes) → m s ≡ panicked → m (s ++ more) ≡ panicked

-- What a bind that succeeds is made of.
pub >>=-ok_elim {ℓ κ μ} :
    {A : Type ℓ} {B : Type κ} {P : Type μ} (m : Outcome A) (f : A → Outcome B) {b : B}
    → (m >>= f) ≡ ok b
    → ((a : A) → m ≡ ok a → f a ≡ ok b → P)
    → P
>>=-ok_elim (ok a) f h k = k a refl h
>>=-ok_elim (err e) f h k = absurd (cc)
>>=-ok_elim panicked f h k = absurd (cc)

pub bound {ℓ κ} :
    {A : Type ℓ} {B : Type κ} (first : Outcome A) (next : A → Outcome B) {y : B}
    → (first >>= next) ≡ ok y
    → (x : A) × (first ≡ ok x) × (next x ≡ ok y)
bound first next h = >>=-ok_elim first next h (λ x before after. (x, before, after))

pub >>=-eq-panicked {ℓ κ} :
    {A : Type ℓ} {B : Type κ} (m : Outcome A) (f : A → Outcome B)
    → (m >>= f) ≡ panicked
    → (m ≡ panicked) ⊎ ((a : A) × (m ≡ ok a) × (f a ≡ panicked))
>>=-eq-panicked (ok a) f h = inr (a, refl, h)
>>=-eq-panicked (err e) f h = cc
>>=-eq-panicked panicked f h = inl refl

module _ {ℓ κ} {A : Type ℓ} {B : Type κ} where
  abbrev pub seq : Reader A → (A → Reader B) → Reader B
  seq m k s = m s >>= λ p. k p.0 p.1

  pub seq-IsReader :
      (m : Reader A) (k : A → Reader B)
      → IsReader m
      → ((a : A) → IsReader (k a))
      → IsReader (seq m k)
  seq-IsReader m k hm hk = record {
    takes = λ s b r e.
        let ((a, r'), ea, eb) = bound (m s) (λ p. k p.0 p.1) e in
        let (front, p) = hm.takes s a r' ea in
        let (front', q) = (hk a).takes r' b r eb in
        (front ++ front', p ∙ ap (◌++◌ front) q ∙ sym (append_assoc front front' r));
    extends = λ s more b r e.
        let ((a, r'), ea, eb) = bound (m s) (λ p. k p.0 p.1) e in
        rw (hm.extends s more a r' ea) ((hk a).extends r' more b r eb);
    panics = λ s more e. elim (>>=-eq-panicked (m s) (λ p. k p.0 p.1) e) [
      | inl first ↦ rw (hm.panics s more first)
      | inr ((a, r'), ea, eb) ↦ rw (hm.extends s more a r' ea) ((hk a).panics r' more eb)
    ];
  }

pub pure-IsReader {ℓ} : {A : Type ℓ} (a : A) → IsReader (λ s. ok (a, s))
pure-IsReader a = record {
  takes = λ s b r e. ([], cc);
  extends = λ s more b r e. cc;
  panics = λ s more e. cc;
}

pub if-IsReader {ℓ} :
    {A : Type ℓ} (b : Bool) (m n : Reader A)
    → IsReader m
    → IsReader n
    → IsReader (λ s. if b then m s else n s)
if-IsReader true m n hm hn = hm
if-IsReader false m n hm hn = hn

pub panicked-IsReader {ℓ} : {A : Type ℓ} → IsReader {A = A} (λ s. panicked)
panicked-IsReader = record {
  takes = λ s a r e. cc;
  extends = λ s more a r e. cc;
  panics = λ s more e. refl;
}

pub read_full-IsReader : (n : ℕ) → IsReader (read_full n)
read_full-IsReader n = record {
  takes = λ s a r e. (a, (read_full_ok n s a r e).0);
  extends = λ s more a r e. read_full-append_ok n s more a r e;
  panics = λ s more e. absurd (read_full-ne-panicked n s e);
}

-- On a proper prefix of input that is read whole, a reader runs out of bytes: it neither succeeds
-- nor panics.
pub truncated {ℓ} :
    {A : Type ℓ} (m : Reader A) (front back : Bytes) (x : ℕ) {a : A}
    → IsReader m
    → m (front ++ (x ∷ back)) ≡ ok (a, [])
    → (e : ReadError) × (m front ≡ err e)
truncated {A} m front back x {a} hm whole = go (m front) refl
  where
    go : (o : Outcome (A × Bytes)) → m front ≡ o → (e : ReadError) × (m front ≡ err e)
    go (ok (b, r)) h =
        absurd
          (ground (arith, whole, hm.extends front (x ∷ back) b r h, length-append r (x ∷ back)))
    go (err e) h = (e, h)
    go panicked h = absurd (cc (whole, hm.panics front (x ∷ back) h))
