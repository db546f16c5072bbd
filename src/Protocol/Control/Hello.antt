-- ===== src/Protocol/Control/Hello.antt =====
-- `_pack_cert_and_pubkey` and `_unpack_hello` of src/protocol/control.py: two byte strings, each
-- behind its length in two bytes.
use vpn_app_ai.Prelude.{
  ℕ, ◌+◌, ◌^◌, ◌<◌, ◌≡◌, refl, ap, ◌∙◌, sym, [], ◌++◌, length, take, drop, append_assoc, append-nil,
  take-append, drop-append, length-append, arith,
}
use vpn_app_ai.Prelude.Result.{Result, ok, ◌>>=◌}
use vpn_app_ai.Bytes.{Bytes, pack, unpack, big_endian}
use vpn_app_ai.Bytes.Codec.{pack_fits, unpack-big_endian, length-big_endian}

-- `payload[offset:offset+n]`
unfoldable pub slice : Bytes → ℕ → ℕ → Bytes
slice payload offset n = take n (drop offset payload)

-- `struct.pack("!H", len(b)) + b`
unfoldable pub pack_field : Bytes → Result Bytes
pack_field b = do n ← pack 2 (length b); ok (n ++ b)

unfoldable pub pack_cert_and_pubkey : Bytes → Bytes → Result Bytes
pack_cert_and_pubkey cert_bytes pub_bytes = do
  c ← pack_field cert_bytes
  k ← pack_field pub_bytes
  ok (c ++ k)

-- The field at `offset`, and the offset behind it.
unfoldable pub unpack_field : Bytes → ℕ → Result (Bytes × ℕ)
unpack_field payload offset = do
  n ← unpack 2 (slice payload offset 2)
  ok (slice payload (offset + 2) n, offset + 2 + n)

unfoldable pub unpack_hello : Bytes → ℕ → Result (Bytes × Bytes × ℕ)
unpack_hello payload offset = do
  (cert_data, after_cert) ← unpack_field payload offset
  (pub_data, after_pub) ← unpack_field payload after_cert
  ok (cert_data, pub_data, after_pub)

abbrev pub field_bytes : Bytes → Bytes
field_bytes b = big_endian 2 (length b) ++ b

pub pack_field_lem : (b : Bytes) → length b < 2 ^ 16 → pack_field b ≡ ok (field_bytes b)
unfolding pack_field
pack_field_lem b h = rw (pack_fits 2 (length b) h)

slice-append :
    (before b after : Bytes) (offset n : ℕ)
    → length before ≡ offset
    → length b ≡ n
    → slice (before ++ (b ++ after)) offset n ≡ b
unfolding slice
slice-append before b after offset n e k =
    ap (take n) (drop-append offset before (b ++ after) e) ∙ take-append n b after k

-- A field is read back wherever it stands.
pub unpack_field-field_bytes :
    (before b after : Bytes) (offset : ℕ)
    → length before ≡ offset
    → length b < 2 ^ 16
    → unpack_field (before ++ (field_bytes b ++ after)) offset ≡ ok (b, offset + 2 + length b)
unfolding unpack_field
unpack_field-field_bytes before b after offset e h =
    let n = big_endian 2 (length b) in
    let two : length n ≡ 2 = length-big_endian 2 (length b) in
    let inner : before ++ ((n ++ b) ++ after) ≡ before ++ (n ++ (b ++ after)) =
      ap (λ (t : Bytes). before ++ t) (append_assoc n b after) in
    let outer : before ++ (n ++ (b ++ after)) ≡ (before ++ n) ++ (b ++ after) =
      sym (append_assoc before n (b ++ after)) in
    let first : slice (before ++ ((n ++ b) ++ after)) offset 2 ≡ n =
      ap (λ (t : Bytes). slice t offset 2) inner
      ∙ slice-append before n (b ++ after) offset 2 e two in
    let second : slice (before ++ ((n ++ b) ++ after)) (offset + 2) (length b) ≡ b =
      ap (λ (t : Bytes). slice t (offset + 2) (length b)) (inner ∙ outer)
      ∙ slice-append (before ++ n) b after (offset + 2) (length b)
          (omega (arith, length-append before n)) refl in
    rw (first, unpack-big_endian 2 (length b) h, second)

pub length-field_bytes : (b : Bytes) → length (field_bytes b) ≡ 2 + length b
length-field_bytes b =
    omega (arith, length-append (big_endian 2 (length b)) b, length-big_endian 2 (length b))

first_field :
    (cert key rest : Bytes)
    → length cert < 2 ^ 16
    → unpack_field ((field_bytes cert ++ field_bytes key) ++ rest) 0
      ≡ ok (cert, 0 + 2 + length cert)
first_field cert key rest h =
    ap (λ (t : Bytes). unpack_field t 0) (append_assoc (field_bytes cert) (field_bytes key) rest)
    ∙ unpack_field-field_bytes [] cert (field_bytes key ++ rest) 0 refl h

unpack_field-field_bytes_at :
    (cert key rest : Bytes)
    → length key < 2 ^ 16
    → unpack_field ((field_bytes cert ++ field_bytes key) ++ rest) (0 + 2 + length cert)
      ≡ ok (key, 0 + 2 + length cert + 2 + length key)
unpack_field-field_bytes_at cert key rest h =
    ap (λ (t : Bytes). unpack_field t (0 + 2 + length cert))
      (append_assoc (field_bytes cert) (field_bytes key) rest)
    ∙ unpack_field-field_bytes (field_bytes cert) key rest (0 + 2 + length cert)
        (omega (arith, length-field_bytes cert)) h

-- A certificate and a key of less than 2 ^ 16 bytes each are read back from what was packed, with
-- the offset of whatever follows them.
pub unpack-pack_hello :
    (cert key rest : Bytes)
    → length cert < 2 ^ 16
    → length key < 2 ^ 16
    → (packed : Bytes) × (pack_cert_and_pubkey cert key ≡ ok packed)
      × (unpack_hello (packed ++ rest) 0 ≡ ok (cert, key, length packed))
unfolding pack_cert_and_pubkey unpack_hello
unpack-pack_hello cert key rest hc hk =
    let c = field_bytes cert in
    let k = field_bytes key in
    (
      c ++ k,
      rw (pack_field_lem cert hc, pack_field_lem key hk),
      rw (first_field cert key rest hc) (
          rw (unpack_field-field_bytes_at cert key rest hk) (
            ap (λ (n : ℕ). ok (cert, key, n))
              (omega (arith, length-append c k, length-field_bytes cert, length-field_bytes key)))),
    )

-- A field at the end of a payload, read in the two steps of the handlers.
pub trailing_field :
    (before b : Bytes)
    → length b < 2 ^ 16
    → (unpack 2 (slice (before ++ field_bytes b) (length before) 2) ≡ ok (length b))
      × (slice (before ++ field_bytes b) (length before + 2) (length b) ≡ b)
trailing_field before b h =
    let n = big_endian 2 (length b) in
    let two : length n ≡ 2 = length-big_endian 2 (length b) in
    let whole : before ++ (n ++ b) ≡ (before ++ n) ++ (b ++ []) =
      sym (append_assoc before n b) ∙ ap (λ (t : Bytes). (before ++ n) ++ t) (sym (append-nil b)) in
    (
      ap (unpack 2) (slice-append before n b (length before) 2 refl two)
          ∙ unpack-big_endian 2 (length b) h,
      ap (λ (t : Bytes). slice t (length before + 2) (length b)) whole
          ∙ slice-append (before ++ n) b [] (length before + 2) (length b)
              (omega (arith, length-append before n)) refl,
    )
