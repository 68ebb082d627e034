-- ===== src/Protocol/Frame/RoundTrip.antt =====
-- ReadFrame reads back what WriteServerFrame and WriteClientFrame write.
use rmm.Base.{
  ℕ, zero, suc, ◌+◌, ◌/◌, ◌%◌, ◌^◌, ◌≤◌, ◌<◌, ◌≡◌, refl, ap, [], ◌∷◌, ◌++◌, Bytes, All, IsByte,
  ◌==◌, if◌then◌else◌, length, get_or, bit_and, bit_or, Bool, true, false, not, arith, append_assoc,
  sym, dec_lt,
}
use rmm.Base.Bits.{header_masks, set_top_bit, xor-xor, bit_and_three}
use rmm.Protocol.Stream.{ok, make_bytes, big_endian, read_full-append}
use rmm.Protocol.Frame.{
  read_length, read_mask_key, read_payload, read_frame, unmask_from, mask_from, length_bytes,
  server_length, client_length, write_server_frame, write_client_frame,
}

big_endian-length_bytes : (n : ℕ) → n < 2 ^ 64 → big_endian (length_bytes 8 n) ≡ n
unfolding big_endian length_bytes
big_endian-length_bytes n h = omega arith

-- ReadFrame on a stream that is laid out as header, length, key and body.
read_frame_layout :
    (max_alloc h₀ h₁ n : ℕ) (ext key body payload rest : Bytes) (masked : Bool)
    → not (bit_and h₁ 0x80 == 0) ≡ masked
    → read_length (bit_and h₁ 0x7F) (ext ++ (key ++ (body ++ rest))) ≡ ok (n, key ++ (body ++ rest))
    → read_mask_key masked (key ++ (body ++ rest)) ≡ ok (key, body ++ rest)
    → n ≡ length body
    → n ≤ max_alloc
    → (if masked then unmask_from 0 key body else body) ≡ payload
    → read_frame max_alloc (h₀ ∷ h₁ ∷ (ext ++ (key ++ (body ++ rest))))
      ≡ ok (record { opcode = bit_and h₀ 0x0F; payload = payload }, rest)
unfolding read_frame read_payload make_bytes
read_frame_layout max_alloc h₀ h₁ n ext key body payload rest masked em el ek eb fits ep =
    rw (read_full-append (h₀ ∷ h₁ ∷ []) (ext ++ (key ++ (body ++ rest))) 2 refl, em, el, ek)
      (ground (arith, read_full-append body rest n eb, ep))

-- A length field: its first byte, whether that has the mask bit, and that the rest reads back as `n`.
record IsLength (masked : Bool) (n : ℕ) (field : Bytes) : Type 0 where
  first : ℕ
  ext : Bytes
  layout : field ≡ first ∷ ext
  mask_bit : not (bit_and first 0x80 == 0) ≡ masked
  reads : (r : Bytes) → read_length (bit_and first 0x7F) (ext ++ r) ≡ ok (n, r)

two_bytes : (n : ℕ) → n < 65536 → big_endian (n / 2 ^ 8 % 256 ∷ n % 256 ∷ []) ≡ n
unfolding big_endian
two_bytes n h = omega arith

read_length_126 :
    (n a b : ℕ) (r : Bytes) → big_endian (a ∷ b ∷ []) ≡ n → read_length 126 (a ∷ b ∷ r) ≡ ok (n, r)
unfolding read_length
read_length_126 n a b r e = rw (read_full-append (a ∷ b ∷ []) r 2 refl, e)

read_length_127 :
    (n : ℕ) (r : Bytes) → n < 2 ^ 64 → read_length 127 (length_bytes 8 n ++ r) ≡ ok (n, r)
unfolding read_length
read_length_127 n r h = rw (
  read_full-append (length_bytes 8 n) r 8 (unfold length_bytes in refl),
  big_endian-length_bytes n h,
)

read_length_short : (n : ℕ) (r : Bytes) → n < 126 → read_length n r ≡ ok (n, r)
unfolding read_length
read_length_short n r h = ground arith

server_length-IsLength : (n : ℕ) → n < 2 ^ 64 → IsLength false n (server_length n)
unfolding server_length
server_length-IsLength n h = elim (dec_lt n 126) [
  | yes short ↦ record {
    first = n;
    ext = [];
    layout = ground arith;
    mask_bit = ground (arith, header_masks n);
    reads = λ r. ground (arith, header_masks n, read_length_short n r);
  }
  | no long ↦ elim (dec_lt n 65536) [
    | yes middle ↦ record {
      first = 126;
      ext = n / 2 ^ 8 % 256 ∷ n % 256 ∷ [];
      layout = ground arith;
      mask_bit = refl;
      reads = λ r. read_length_126 n _ _ r (two_bytes n middle);
    }
    | no longest ↦ record {
      first = 127;
      ext = length_bytes 8 n;
      layout = ground arith;
      mask_bit = refl;
      reads = λ r. read_length_127 n r h;
    }
  ]
]

client_length-IsLength : (n : ℕ) → n < 2 ^ 64 → IsLength true n (client_length n)
unfolding client_length
client_length-IsLength n h = elim (dec_lt n 126) [
  | yes short ↦ record {
    first = n + 128;
    ext = [];
    layout = ground (arith, set_top_bit n);
    mask_bit = ground (arith, header_masks (n + 128));
    reads = λ r. ground (arith, header_masks (n + 128), read_length_short n r);
  }
  | no long ↦ elim (dec_lt n 65536) [
    | yes middle ↦ record {
      first = 254;
      ext = n / 2 ^ 8 % 256 ∷ n % 256 ∷ [];
      layout = ground arith;
      mask_bit = refl;
      reads = λ r. read_length_126 n _ _ r (two_bytes n middle);
    }
    | no longest ↦ record {
      first = 255;
      ext = length_bytes 8 n;
      layout = ground arith;
      mask_bit = refl;
      reads = λ r. read_length_127 n r h;
    }
  ]
]

opcode_byte : (opcode : ℕ) → opcode < 16 → bit_and (bit_or 0x80 opcode) 0x0F ≡ opcode
opcode_byte opcode h =
    rw (set_top_bit opcode (omega arith)).1 (ground (arith, header_masks (opcode + 128)))

-- What the server writes, an agent or a viewer reads, whatever follows it on the stream.
pub read_frame-write_server_frame :
    (max_alloc opcode : ℕ) (payload rest : Bytes)
    → opcode < 16
    → length payload ≤ max_alloc
    → length payload < 2 ^ 64
    → read_frame max_alloc (write_server_frame opcode payload ++ rest)
      ≡ ok (record { opcode = opcode; payload = payload }, rest)
unfolding write_server_frame
read_frame-write_server_frame max_alloc opcode payload rest ho hm hl =
    let f = server_length-IsLength (length payload) hl in
    rw (f.layout, append_assoc)
      (rw
        (read_frame_layout max_alloc (bit_or 0x80 opcode) f.first (length payload) f.ext [] payload
          payload rest false f.mask_bit (f.reads (payload ++ rest)) (unfold read_mask_key in refl)
          refl hm refl)
        (ap (λ o. ok (record { opcode = o; payload = payload }, rest)) (opcode_byte opcode ho)))

get_or-IsByte : (key : Bytes) (i : ℕ) → All IsByte key → IsByte (get_or key i 0)
get_or-IsByte [] i h = omega arith
get_or-IsByte (k ∷ key) zero (hk, h) = hk
get_or-IsByte (k ∷ key) (suc i) (hk, h) = get_or-IsByte key i h

-- Unmasking undoes masking, although one indexes the key by `i & 3` and the other by `i % 4`.
pub unmask_from-mask_from :
    (i : ℕ) (key payload : Bytes)
    → All IsByte key
    → All IsByte payload
    → unmask_from i key (mask_from i key payload) ≡ payload
unfolding unmask_from mask_from
unmask_from-mask_from i key [] hk hp = refl
unmask_from-mask_from i key (b ∷ payload) hk (hb, hp) = rw (
  bit_and_three i,
  xor-xor b (get_or key (i % 4) 0) hb (get_or-IsByte key (i % 4) hk),
  unmask_from-mask_from (i + 1) key payload hk hp,
)

length-mask_from : (i : ℕ) (key payload : Bytes) → length (mask_from i key payload) ≡ length payload
unfolding mask_from
length-mask_from i key [] = refl
length-mask_from i key (b ∷ payload) = ap suc (length-mask_from (i + 1) key payload)

-- What an agent writes, the server reads, whatever the mask key.
pub read_frame-write_client_frame :
    (max_alloc opcode : ℕ) (mask_key payload rest : Bytes)
    → opcode < 16
    → length mask_key ≡ 4
    → All IsByte mask_key
    → All IsByte payload
    → length payload ≤ max_alloc
    → length payload < 2 ^ 64
    → read_frame max_alloc (write_client_frame mask_key opcode payload ++ rest)
      ≡ ok (record { opcode = opcode; payload = payload }, rest)
unfolding write_client_frame
read_frame-write_client_frame max_alloc opcode mask_key payload rest ho h4 hk hp hm hl =
    let f = client_length-IsLength (length payload) hl in
    let body = mask_from 0 mask_key payload in
    rw (f.layout, append_assoc)
      (rw append_assoc (
        rw
          (read_frame_layout max_alloc (bit_or 0x80 opcode) f.first (length payload) f.ext mask_key
            body payload rest true f.mask_bit (f.reads (mask_key ++ (body ++ rest)))
            (unfold read_mask_key in read_full-append mask_key (body ++ rest) 4 (sym h4))
            (sym (length-mask_from 0 mask_key payload)) hm
            (unmask_from-mask_from 0 mask_key payload hk hp))
          (ap (λ o. ok (record { opcode = o; payload = payload }, rest)) (opcode_byte opcode ho))))
