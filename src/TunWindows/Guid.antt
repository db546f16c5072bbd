-- ===== src/TunWindows/Guid.antt =====
-- `_guid_from_name` of src/tun_windows.py.
use vpn_app_ai.Prelude.{
  ℕ, zero, suc, ◌/◌, ◌<◌, ◌≡◌, refl, Bool, true, false, ◌&&◌, [], ◌∷◌, All, length, take, nat_beq,
  bit_and, bit_or, arith, ltb, Option, none, some, if◌then◌else◌, take_all, ap, sym, subst, ◌∙◌,
}
use vpn_app_ai.Prelude.Result.{index_error, Result, ok, raise, ◌>>=◌}
use vpn_app_ai.Bytes.{Bytes}
use vpn_app_ai.Crypto.Pki.{Text}

-- `h[i] = f(h[i])`
unfoldable pub update : ℕ → (ℕ → ℕ) → Bytes → Result Bytes
update i f [] = raise index_error
update zero f (b ∷ bs) = ok (f b ∷ bs)
update (suc i) f (b ∷ bs) = do rest ← update i f bs; ok (b ∷ rest)

-- `(h[7] & 0x0f) | 0x40` and `(h[8] & 0x3f) | 0x80`
abbrev pub with_version : ℕ → ℕ
with_version b = bit_or (bit_and b 0x0f) 0x40

abbrev pub with_variant : ℕ → ℕ
with_variant b = bit_or (bit_and b 0x3f) 0x80

-- `name.encode()` is the name's code points: names are ASCII here.
unfoldable pub guid_from_name : (Bytes → Bytes) → Text → Result Bytes
unfolding update
guid_from_name md5 name = do
  versioned ← update 7 with_version (take 16 (md5 name))
  update 8 with_variant versioned

abbrev pub get_elem? : Bytes → ℕ → Option ℕ
get_elem? [] i = none
get_elem? (b ∷ bs) zero = some b
get_elem? (b ∷ bs) (suc i) = get_elem? bs i

-- A GUID as Windows stores it: 16 bytes, version 4 in the high half of byte 7, the variant in byte 8.
pub record IsGuid (h : Bytes) : Type 0 where
  pub sixteen : length h ≡ 16
  pub bytes : (i b : ℕ) → get_elem? h i ≡ some b → b < 256
  pub version : (b : ℕ) → get_elem? h 7 ≡ some b → b / 16 ≡ 4
  pub variant : (b : ℕ) → get_elem? h 8 ≡ some b → b / 64 ≡ 2

in_range : ℕ → Bool
in_range b =
    ltb (with_version b) 256
    && nat_beq (with_version b / 16) 4
    && (ltb (with_variant b) 256 && nat_beq (with_variant b / 64) 2)

all_in_range : ℕ → Bool
all_in_range zero = true
all_in_range (suc n) = let rest = all_in_range n in in_range n && rest

all_bytes_in_range : all_in_range 256 ≡ true
unfolding all_in_range in_range
all_bytes_in_range = refl

all_in_range-in_range : (n b : ℕ) → b < n → all_in_range n ≡ true → in_range b ≡ true
unfolding all_in_range
all_in_range-in_range zero b h e = absurd (omega arith)
all_in_range-in_range (suc n) b h e = ground (arith, all_in_range-in_range n b)

forced_bits :
    (b : ℕ)
    → b < 256
    → (with_version b < 256)
      × (with_version b / 16 ≡ 4)
      × (with_variant b < 256)
      × (with_variant b / 64 ≡ 2)
unfolding in_range
forced_bits b h =
    let e = all_in_range-in_range 256 b h all_bytes_in_range in
    (ground (arith, e), ground (arith, e), ground (arith, e), ground (arith, e))

abbrev changed : (ℕ → ℕ) → Option ℕ → Option ℕ
changed f none = none
changed f (some b) = some (f b)

-- An update in range changes one place.
update-ok :
    (i : ℕ) (f : ℕ → ℕ) (bs : Bytes)
    → i < length bs
    → (h : Bytes) × (update i f bs ≡ ok h)
      × (length h ≡ length bs)
      × ((j : ℕ)
          → get_elem? h j ≡ (if nat_beq i j then changed f (get_elem? bs j) else get_elem? bs j))
unfolding update
update-ok i f [] h = absurd (omega arith)
update-ok zero f (b ∷ bs) h = (f b ∷ bs, refl, refl, at)
  where
    at :
        (j : ℕ)
        → get_elem? (f b ∷ bs) j
          ≡ (if nat_beq zero j then changed f (get_elem? (b ∷ bs) j) else get_elem? (b ∷ bs) j)
    at zero = refl
    at (suc j) = ground arith
update-ok (suc i) f (b ∷ bs) h =
    let (rest, e, same, later) = update-ok i f bs (omega arith) in
    (b ∷ rest, rw e refl, ap suc same, at rest later)
  where
    at :
        (rest : Bytes)
        → ((j : ℕ)
            → get_elem? rest j
              ≡ (if nat_beq i j then changed f (get_elem? bs j) else get_elem? bs j))
        → (j : ℕ)
        → get_elem? (b ∷ rest) j
          ≡ (if nat_beq (suc i) j then changed f (get_elem? (b ∷ bs) j) else get_elem? (b ∷ bs) j)
    at rest later zero = ground arith
    at rest later (suc j) = ground (arith, later j)

byte_at : (bs : Bytes) (i b : ℕ) → All (λ b. b < 256) bs → get_elem? bs i ≡ some b → b < 256
byte_at [] i b h e = cc e
byte_at (x ∷ bs) zero b h e = ground (arith, h.0, e)
byte_at (x ∷ bs) (suc i) b h e = byte_at bs i b h.1 e

changed-some :
    (f : ℕ → ℕ) (o : Option ℕ) (b : ℕ) → changed f o ≡ some b → (a : ℕ) × (o ≡ some a) × (f a ≡ b)
changed-some f none b e = cc e
changed-some f (some a) b e = (a, refl, cc e)

-- A change that keeps bytes leaves a byte.
kept_byte :
    (f : ℕ → ℕ) (t : Bool) (o : Option ℕ) (b : ℕ)
    → ((a : ℕ) → a < 256 → f a < 256)
    → ((a : ℕ) → o ≡ some a → a < 256)
    → (if t then changed f o else o) ≡ some b
    → b < 256
kept_byte f true o b keeps below e =
    let (a, there, is) = changed-some f o b e in
    subst (λ (c : ℕ). c < 256) is (keeps a (below a there))
kept_byte f false o b keeps below e = below b e

-- From a digest of 16 bytes `guid_from_name` makes a GUID of version 4, whatever the name is.
pub guid_from_name-IsGuid :
    (md5 : Bytes → Bytes) (name : Text)
    → length (md5 name) ≡ 16
    → All (λ b. b < 256) (md5 name)
    → (h : Bytes) × (guid_from_name md5 name ≡ ok h) × IsGuid h
unfolding guid_from_name
guid_from_name-IsGuid md5 name sixteen bytes =
    let d = md5 name in
    let whole : take 16 d ≡ d = take_all 16 d (omega (arith, sixteen)) in
    let (g, e, g_length, g_at) = update-ok 7 with_version d (omega (arith, sixteen)) in
    let (h, e', h_length, h_at) = update-ok 8 with_variant g (omega (arith, sixteen, g_length)) in
    (
      h,
      rw whole (rw e e'),
      record {
        sixteen = h_length ∙ g_length ∙ sixteen;
        bytes = λ i b q.
            kept_byte with_variant (nat_beq 8 i) (get_elem? g i) b (λ a lt. (forced_bits a lt).2)
              (λ a there.
                kept_byte with_version (nat_beq 7 i) (get_elem? d i) a
                  (λ c lt. (forced_bits c lt).0) (λ c at_d. byte_at d i c bytes at_d)
                  (sym (g_at i) ∙ there))
              (sym (h_at i) ∙ q);
        version = λ b q.
            let (a, at_d, is) =
              changed-some with_version (get_elem? d 7) b (sym (g_at 7) ∙ sym (h_at 7) ∙ q) in
            ap (λ (c : ℕ). c / 16) (sym is) ∙ (forced_bits a (byte_at d 7 a bytes at_d)).1;
        variant = λ b q.
            let (a, at_g, is) = changed-some with_variant (get_elem? g 8) b (sym (h_at 8) ∙ q) in
            ap (λ (c : ℕ). c / 64) (sym is)
            ∙ (forced_bits a (byte_at d 8 a bytes (sym (g_at 8) ∙ at_g))).3;
      },
    )
