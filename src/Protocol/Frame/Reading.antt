-- ===== src/Protocol/Frame/Reading.antt =====
-- ReadFrame on any stream: what it takes, and when it fails.
use rmm.Base.{
  ℕ, suc, ◌+◌, ◌^◌, ◌≤◌, ◌<◌, ◌≡◌, refl, ap, [], ◌∷◌, ◌++◌, Bytes, All, IsByte, ltb, ◌==◌,
  if◌then◌else◌, length, get_or, bit_and, Bool, true, false, not, arith, append-nil, Bool-cases,
  inl, inr, length-append,
}
use rmm.Base.Bits.{header_masks}
use rmm.Protocol.Stream.{
  Outcome, ok, err, panicked, ReadError, ◌>>=◌, read_full, read_full_ok, make_bytes, big_endian,
}
use rmm.Protocol.Reader.{
  Reader, IsReader, seq-IsReader, if-IsReader, panicked-IsReader, pure-IsReader, read_full-IsReader,
  bound, >>=-ok_elim, truncated,
}
use rmm.Protocol.Frame.{
  Frame, read_length, read_mask_key, read_payload, read_frame, unmask_from, write_server_frame,
  write_client_frame,
}
use rmm.Protocol.Frame.RoundTrip.{read_frame-write_server_frame, read_frame-write_client_frame}

read_length-IsReader : (n : ℕ) → IsReader (read_length n)
unfolding read_length
read_length-IsReader n =
    if-IsReader (n == 126) _ _
      (seq-IsReader (read_full 2) _ (read_full-IsReader 2) (λ ext. pure-IsReader (big_endian ext)))
      (if-IsReader (n == 127) _ _
        (seq-IsReader (read_full 8) _ (read_full-IsReader 8)
          (λ ext. pure-IsReader (big_endian ext)))
        (pure-IsReader n))

read_mask_key-IsReader : (masked : Bool) → IsReader (read_mask_key masked)
unfolding read_mask_key
read_mask_key-IsReader true = read_full-IsReader 4
read_mask_key-IsReader false = pure-IsReader []

read_payload-IsReader :
    (max_alloc : ℕ) (masked : Bool) (n : ℕ) (key : Bytes)
    → IsReader (read_payload max_alloc masked n key)
unfolding read_payload make_bytes
read_payload-IsReader max_alloc masked n key =
    elim (ltb max_alloc n)
      as (λ large. IsReader (λ r. (if large then panicked else ok tt) >>= λ _. rest r)) [
        | true ↦ panicked-IsReader
        | false ↦
            seq-IsReader (read_full n) _ (read_full-IsReader n)
              (λ p. pure-IsReader (if masked then unmask_from 0 key p else p))
      ]
  where
    rest : Reader Bytes
    rest r = read_full n r >>= λ p. ok ((if masked then unmask_from 0 key p.0 else p.0), p.1)

-- A frame is decided by the bytes that it takes: input behind them is left on the stream.
pub read_frame-IsReader : (max_alloc : ℕ) → IsReader (read_frame max_alloc)
unfolding read_frame
read_frame-IsReader max_alloc = seq-IsReader (read_full 2) _ (read_full-IsReader 2) λ header.
    let masked = not (bit_and (get_or header 1 0) 0x80 == 0) in
    seq-IsReader (read_length _) _ (read_length-IsReader _) λ n.
      seq-IsReader (read_mask_key masked) _ (read_mask_key-IsReader masked) λ key.
        seq-IsReader (read_payload max_alloc masked n key) _
          (read_payload-IsReader max_alloc masked n key)
          λ payload.
            pure-IsReader (record { opcode = bit_and (get_or header 0 0) 0x0F; payload = payload })

-- A connection that ends inside a server's frame is reported as a read error.
pub read_frame_truncated_server :
    (max_alloc opcode x : ℕ) (payload front back : Bytes)
    → opcode < 16
    → length payload ≤ max_alloc
    → length payload < 2 ^ 64
    → write_server_frame opcode payload ≡ front ++ (x ∷ back)
    → (e : ReadError) × (read_frame max_alloc front ≡ err e)
read_frame_truncated_server max_alloc opcode x payload front back ho hm hl split =
    truncated (read_frame max_alloc) front back x (read_frame-IsReader max_alloc) (
      rw (append-nil, split) at
        (read_frame-write_server_frame max_alloc opcode payload [] ho hm hl))

-- The same for a frame that an agent writes.
pub read_frame_truncated_client :
    (max_alloc opcode x : ℕ) (mask_key payload front back : Bytes)
    → opcode < 16
    → length mask_key ≡ 4
    → All IsByte mask_key
    → All IsByte payload
    → length payload ≤ max_alloc
    → length payload < 2 ^ 64
    → write_client_frame mask_key opcode payload ≡ front ++ (x ∷ back)
    → (e : ReadError) × (read_frame max_alloc front ≡ err e)
read_frame_truncated_client max_alloc opcode x mask_key payload front back ho h4 hk hp hm hl split =
    truncated (read_frame max_alloc) front back x (read_frame-IsReader max_alloc) (
      rw (append-nil, split) at
        (read_frame-write_client_frame max_alloc opcode mask_key payload [] ho h4 hk hp hm hl))

length-unmask_from : (i : ℕ) (key s : Bytes) → length (unmask_from i key s) ≡ length s
unfolding unmask_from
length-unmask_from i key [] = refl
length-unmask_from i key (b ∷ s) = ap suc (length-unmask_from (i + 1) key s)

read_payload_ok :
    (max_alloc n : ℕ) (masked : Bool) (key s payload rest : Bytes)
    → read_payload max_alloc masked n key s ≡ ok (payload, rest)
    → (length payload ≤ max_alloc)
      × (length payload ≡ n)
      × (length s ≡ length payload + length rest)
unfolding read_payload make_bytes
read_payload_ok max_alloc n masked key s payload rest e = elim (Bool-cases (ltb max_alloc n)) [
  | inl large ↦ absurd (ground arith)
  | inr fits ↦
      let ((body, r), read, whole) = bound (read_full n s) _ (rw fits at e) in
      let (split, len) = read_full_ok n s body r read in
      ground
        (arith, len, whole, ap length split, length-append body r, length-unmask_from 0 key body)
]

takes_length {ℓ} :
    {A : Type ℓ} (m : Reader A) (s : Bytes) {a : A} {r : Bytes}
    → IsReader m
    → m s ≡ ok (a, r)
    → length r ≤ length s
takes_length m s {a} {r} h e =
    let (front, split) = h.takes s a r e in omega (arith, ap length split, length-append front r)

frame_bounds :
    (max_alloc n : ℕ) (masked : Bool) (key s header r₁ r₂ r₃ payload r₄ rest : Bytes) (f : Frame)
    → All IsByte s
    → (s ≡ header ++ r₁) × (length header ≡ 2)
    → length r₂ ≤ length r₁
    → length r₃ ≤ length r₂
    → read_payload max_alloc masked n key r₃ ≡ ok (payload, r₄)
    → ◌≡◌ {A = Outcome (Frame × Bytes)}
        (ok (record { opcode = bit_and (get_or header 0 0) 0x0F; payload = payload }, r₄))
        (ok (f, rest))
    → (f.opcode < 16)
      × (length f.payload ≤ max_alloc)
      × (length rest + length f.payload + 2 ≤ length s)
frame_bounds max_alloc n masked key s [] r₁ r₂ r₃ payload r₄ rest f hs (split, len) l₂ l₃ e k =
    absurd (omega arith)
frame_bounds max_alloc n masked key s (h₀ ∷ header) r₁ r₂ r₃ payload r₄ rest f hs (split, len) l₂ l₃
      e k =
    let first : IsByte h₀ = (rw split at hs).0 in
    let parts = read_payload_ok max_alloc n masked key r₃ payload r₄ e in
    ground (arith, k, header_masks h₀, ap length split, length-append header r₁)

-- Every frame that is read has a 4-bit opcode and a payload of at most `max_alloc` bytes, and takes
-- two bytes more than its payload at least.
read_frame_bounds :
    (max_alloc : ℕ) (s rest : Bytes) (f : Frame)
    → All IsByte s
    → read_frame max_alloc s ≡ ok (f, rest)
    → (f.opcode < 16)
      × (length f.payload ≤ max_alloc)
      × (length rest + length f.payload + 2 ≤ length s)
unfolding read_frame
read_frame_bounds max_alloc s rest f hs e = >>=-ok_elim (read_full 2 s) _ e λ header e₁ k₁.
    let second = get_or header.0 1 0 in
    let masked = not (bit_and second 0x80 == 0) in
    >>=-ok_elim (read_length (bit_and second 0x7F) header.1) _ k₁ λ n e₂ k₂.
      >>=-ok_elim (read_mask_key masked n.1) _ k₂ λ key e₃ k₃.
        >>=-ok_elim (read_payload max_alloc masked n.0 key.0 key.1) _ k₃ λ payload e₄ k₄.
          frame_bounds max_alloc n.0 masked key.0 s header.0 header.1 n.1 key.1 payload.0 payload.1
            rest f hs (read_full_ok 2 s header.0 header.1 e₁)
            (takes_length _ header.1 (read_length-IsReader _) e₂)
            (takes_length _ n.1 (read_mask_key-IsReader masked) e₃) e₄ k₄

-- Every frame that is read takes two bytes at least.
pub read_frame_shorter :
    (max_alloc : ℕ) (s rest : Bytes) (f : Frame)
    → read_frame max_alloc s ≡ ok (f, rest)
    → length rest + 2 ≤ length s
unfolding read_frame
read_frame_shorter max_alloc s rest f e = >>=-ok_elim (read_full 2 s) _ e λ header e₁ k₁.
    let second = get_or header.0 1 0 in
    let masked = not (bit_and second 0x80 == 0) in
    >>=-ok_elim (read_length (bit_and second 0x7F) header.1) _ k₁ λ n e₂ k₂.
      >>=-ok_elim (read_mask_key masked n.1) _ k₂ λ key e₃ k₃.
        >>=-ok_elim (read_payload max_alloc masked n.0 key.0 key.1) _ k₃ λ payload e₄ k₄.
          let (split, two) = read_full_ok 2 s header.0 header.1 e₁ in
          ground (
            arith,
            k₄,
            ap length split,
            length-append header.0 header.1,
            two,
            takes_length _ header.1 (read_length-IsReader _) e₂,
            takes_length _ n.1 (read_mask_key-IsReader masked) e₃,
            takes_length _ key.1 (read_payload-IsReader max_alloc masked n.0 key.0) e₄,
          )
