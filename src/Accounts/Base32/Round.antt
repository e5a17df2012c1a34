-- ===== src/Accounts/Base32/Round.antt =====
-- staff/auth/totp.ts: what the decoder makes of the encoder's text.
use valle_web_backend.Prelude.{
  ℕ, zero, suc, ◌+◌, ◌-◌, ◌*◌, ◌/◌, ◌%◌, ◌<◌, ◌≡◌, refl, ◌∙◌, ap, Bool, true, false, ◌&&◌, ◌||◌,
  not, Option, none, some, List, [], ◌∷◌, ◌++◌, All, arith, ltb, leb, ◌==◌, if◌then◌else◌, ==_iff,
  &&-eq-true,
}
use valle_web_backend.Prelude.Text.{is_space}
use Prim.Native.Nat.{◌^◌}
use valle_web_backend.Accounts.Base32.{
  alphabet, char_at, index_of, drain, push_byte, push_five, encode_from, base32_encode, upper_code,
  clean, with_byte, decode_from, base32_decode,
}

-- A test that every character of the alphabet passes, by its number.
every_char : (ℕ → Bool) → ℕ → Bool
every_char test zero = true
every_char test (suc last) = if test last then every_char test last else false

every_char-at :
    (test : ℕ → Bool) (count i : ℕ) → i < count → every_char test count ≡ true → test i ≡ true
unfolding every_char
every_char-at test zero i below passed = elim below [ ]
every_char-at test (suc last) i below passed = ground (arith, every_char-at test last i)

abbrev is_index : Option ℕ → ℕ → Bool
is_index none i = false
is_index (some j) i = j == i

is_index-eq : (o : Option ℕ) (i : ℕ) → is_index o i ≡ true → o ≡ some i
is_index-eq none i h = cc
is_index-eq (some j) i h = ap some ((==_iff j i).0 h)

abbrev is_kept : ℕ → Bool
is_kept c = not (is_space c || c == b'=')

-- A character of the alphabet is neither changed nor left out by the cleaning.
abbrev is_clean : ℕ → Bool
is_clean c = upper_code c == c && is_kept c

index_table : every_char (λ i. is_index (index_of alphabet (char_at alphabet i)) i) 32 ≡ true
unfolding every_char index_of char_at
index_table = refl

clean_table : every_char (λ i. is_clean (char_at alphabet i)) 32 ≡ true
unfolding every_char char_at
clean_table = refl

index_of-char_at : (i : ℕ) → i < 32 → index_of alphabet (char_at alphabet i) ≡ some i
index_of-char_at i h = is_index-eq _ i (every_char-at _ 32 i h index_table)

-- One character of the decoder that completes no byte, and one that does.
decode_keep :
    (bits v i : ℕ) (rest : List ℕ)
    → i < 32
    → leb 8 (bits + 5) ≡ false
    → decode_from bits v (char_at alphabet i ∷ rest) ≡ decode_from (bits + 5) (push_five v i) rest
unfolding decode_from
decode_keep bits v i rest h few = rw (index_of-char_at i h, few, decode_from) refl

decode_push :
    (bits v i : ℕ) (rest : List ℕ)
    → i < 32
    → leb 8 (bits + 5) ≡ true
    → decode_from bits v (char_at alphabet i ∷ rest)
      ≡ with_byte
          (push_five v i / 2 ^ (bits + 5 - 8) % 256)
          (decode_from (bits + 5 - 8) (push_five v i) rest)
unfolding decode_from
decode_push bits v i rest h many = rw (index_of-char_at i h, many, decode_from) refl

-- A character that completes the byte `b`.
decode_out :
    (bits v i : ℕ) (rest : List ℕ) (b : ℕ) (bs : List ℕ)
    → i < 32
    → leb 8 (bits + 5) ≡ true
    → push_five v i / 2 ^ (bits + 5 - 8) % 256 ≡ b
    → decode_from (bits + 5 - 8) (push_five v i) rest ≡ some bs
    → decode_from bits v (char_at alphabet i ∷ rest) ≡ some (b ∷ bs)
decode_out bits v i rest b bs h many byte tail =
    decode_push bits v i rest h many ∙ λ j. with_byte (byte j) (tail j)

decode_nil : (bits v : ℕ) → decode_from bits v [] ≡ some []
unfolding decode_from
decode_nil bits v = refl

-- Of the last byte `b` the encoder has kept `k` bits, and the decoder the others.
abbrev Halves : ℕ → ℕ → ℕ → ℕ → Type 0
Halves k v v' b = (v % 2 ^ k ≡ b % 2 ^ k) × (v' % 2 ^ (8 - k) ≡ b / 2 ^ k)

abbrev pub AreBytes : List ℕ → Type 0
AreBytes bytes = All (λ b. b < 256) bytes

-- The states of the encoder, by the number of bits that it keeps between bytes.
mutual
  unfolding encode_from drain

  round0 : (v v' : ℕ) (bs : List ℕ) → AreBytes bs → decode_from 0 v' (encode_from 0 v bs) ≡ some bs
  round0 v v' [] t = decode_nil 0 v'
  round0 v v' (c ∷ bs) (hc, t) =
      let w = push_byte v c in
      decode_keep 0 v' (w / 8 % 32) _ (omega arith) refl
      ∙ round3 w (push_five v' (w / 8 % 32)) c bs hc t (omega arith, omega arith)

  round3 :
      (v v' b : ℕ) (bs : List ℕ)
      → b < 256
      → AreBytes bs
      → Halves 3 v v' b
      → decode_from 5 v' (encode_from 3 v bs) ≡ some (b ∷ bs)
  round3 v v' b [] hb t (low, high) =
      decode_out 5 v' (v * 4 % 2 ^ 32 % 32) [] b [] (omega arith) refl (omega arith)
        (decode_nil 2 _)
  round3 v v' b (c ∷ bs) hb (hc, t) (low, high) =
      let w = push_byte v c in
      let v1 = push_five v' (w / 64 % 32) in
      let v2 = push_five v1 (w / 2 % 32) in
      decode_out 5 v' (w / 64 % 32) _ b _ (omega arith) refl (omega arith) (
        decode_keep 2 v1 (w / 2 % 32) _ (omega arith) refl
        ∙ round1 w v2 c bs hc t (omega arith, omega arith))

  round1 :
      (v v' b : ℕ) (bs : List ℕ)
      → b < 256
      → AreBytes bs
      → Halves 1 v v' b
      → decode_from 7 v' (encode_from 1 v bs) ≡ some (b ∷ bs)
  round1 v v' b [] hb t (low, high) =
      decode_out 7 v' (v * 16 % 2 ^ 32 % 32) [] b [] (omega arith) refl (omega arith)
        (decode_nil 4 _)
  round1 v v' b (c ∷ bs) hb (hc, t) (low, high) =
      let w = push_byte v c in
      let v1 = push_five v' (w / 16 % 32) in
      decode_out 7 v' (w / 16 % 32) _ b _ (omega arith) refl (omega arith)
        (round4 w v1 c bs hc t (omega arith, omega arith))

  round4 :
      (v v' b : ℕ) (bs : List ℕ)
      → b < 256
      → AreBytes bs
      → Halves 4 v v' b
      → decode_from 4 v' (encode_from 4 v bs) ≡ some (b ∷ bs)
  round4 v v' b [] hb t (low, high) =
      decode_out 4 v' (v * 2 % 2 ^ 32 % 32) [] b [] (omega arith) refl (omega arith)
        (decode_nil 1 _)
  round4 v v' b (c ∷ bs) hb (hc, t) (low, high) =
      let w = push_byte v c in
      let v1 = push_five v' (w / 128 % 32) in
      let v2 = push_five v1 (w / 4 % 32) in
      decode_out 4 v' (w / 128 % 32) _ b _ (omega arith) refl (omega arith) (
        decode_keep 1 v1 (w / 4 % 32) _ (omega arith) refl
        ∙ round2 w v2 c bs hc t (omega arith, omega arith))

  round2 :
      (v v' b : ℕ) (bs : List ℕ)
      → b < 256
      → AreBytes bs
      → Halves 2 v v' b
      → decode_from 6 v' (encode_from 2 v bs) ≡ some (b ∷ bs)
  round2 v v' b [] hb t (low, high) =
      decode_out 6 v' (v * 8 % 2 ^ 32 % 32) [] b [] (omega arith) refl (omega arith)
        (decode_nil 3 _)
  round2 v v' b (c ∷ bs) hb (hc, t) (low, high) =
      let w = push_byte v c in
      let v1 = push_five v' (w / 32 % 32) in
      let v2 = push_five v1 (w / 1 % 32) in
      decode_out 6 v' (w / 32 % 32) _ b _ (omega arith) refl (omega arith)
        (decode_out 3 v1 (w / 1 % 32) _ c _ (omega arith) refl (omega arith) (round0 w v2 bs t))

abbrev AreClean : List ℕ → Type 0
AreClean cs = All (λ c. is_clean c ≡ true) cs

AreClean-append : (xs ys : List ℕ) → AreClean xs → AreClean ys → AreClean (xs ++ ys)
AreClean-append [] ys p q = q
AreClean-append (x ∷ xs) ys (h, p) q = (h, AreClean-append xs ys p q)

char_at-clean : (x : ℕ) → is_clean (char_at alphabet (x % 32)) ≡ true
char_at-clean x = every_char-at (λ i. is_clean (char_at alphabet i)) 32 _ (omega arith) clean_table

drain-AreClean : (fuel bits v : ℕ) → AreClean (drain fuel bits v).0
unfolding drain
drain-AreClean zero bits v = tt
drain-AreClean (suc fuel) bits v =
    elim (leb 5 bits)
      as (λ more. AreClean (
        (let r : List ℕ × ℕ = elim more [
          | false ↦ ([], bits)
          | true ↦
              let (out, left) = drain fuel (bits - 5) v in
              (char_at alphabet (v / 2 ^ (bits - 5) % 32) ∷ out, left)
        ] in
          r).0)) [ false ↦ tt | true ↦ (char_at-clean _, drain-AreClean fuel (bits - 5) v) ]

encode_from-AreClean : (bits v : ℕ) (bs : List ℕ) → AreClean (encode_from bits v bs)
unfolding encode_from
encode_from-AreClean bits v [] =
    elim (ltb 0 bits)
      as (λ more.
        AreClean (if more then char_at alphabet (v * 2 ^ (5 - bits) % 2 ^ 32 % 32) ∷ [] else [])) [
          | false ↦ tt
          | true ↦ (char_at-clean _, tt)
        ]
encode_from-AreClean bits v (b ∷ bs) =
    AreClean-append (drain (bits + 8) (bits + 8) (push_byte v b)).0 _
      (drain-AreClean (bits + 8) (bits + 8) (push_byte v b))
      (encode_from-AreClean (drain (bits + 8) (bits + 8) (push_byte v b)).1 (push_byte v b) bs)

kept_first :
    (d c : ℕ) (rest cs : List ℕ)
    → d ≡ c
    → is_kept c ≡ true
    → rest ≡ cs
    → (if is_kept d then d ∷ rest else rest) ≡ c ∷ cs
kept_first d c rest cs e k r = (λ i. if is_kept (e i) then e i ∷ r i else r i) ∙ rw k refl

clean-AreClean : (cs : List ℕ) → AreClean cs → clean cs ≡ cs
unfolding clean
clean-AreClean [] t = refl
clean-AreClean (c ∷ cs) (h, t) =
    let (fixed, kept) = &&-eq-true (upper_code c == c) (is_kept c) h in
    kept_first (upper_code c) c _ cs ((==_iff (upper_code c) c).0 fixed) kept (clean-AreClean cs t)

-- The decoder gives back the bytes that were encoded, whatever they are.
pub base32_decode-base32_encode :
    (bytes : List ℕ) → AreBytes bytes → base32_decode (base32_encode bytes) ≡ some bytes
unfolding base32_decode base32_encode
base32_decode-base32_encode bytes t =
    ap (decode_from 0 0) (clean-AreClean (encode_from 0 0 bytes) (encode_from-AreClean 0 0 bytes))
    ∙ round0 0 0 bytes t
