-- ===== src/Swap/Tag/RoundTrip.antt =====
-- A tag of src/swap.py is read back as what it was made of.
use lapsecoin.Prelude.{
  ℕ, zero, suc, ◌+◌, ◌-◌, ◌*◌, ◌/◌, ◌%◌, ◌<◌, ◌≡◌, refl, sym, ap, ◌∙◌, true, false, ◌&&◌, ◌||◌,
  some, List, [], ◌∷◌, ◌++◌, map, arith, ltb, leb, ◌==◌, if◌then◌else◌, length, take, All,
  Bool-cases, ltb-false-le, inl, inr,
}
use lapsecoin.Prelude.Text.{split, prepend}
use lapsecoin.Prelude.Result.{ok, raised, value_error, ◌>>=◌}
use lapsecoin.Swap.Tag.{
  Unicode, order_tag_len, session_tag_len, without_dashes, digits, decimal_of, encoded_length,
  session_tag, is_hex_digit, hex_rest, skip_spaces, to_ascii, is_int16, is_hex_of_length,
  all_digits, isdigit, int_from, parse_parts, parse_session_tag, is_ascii_space, unsigned,
}

-- A digit of lowercase hexadecimal.
abbrev pub IsHex : ℕ → Type 0
IsHex c = (((leb b'0' c && leb c b'9') || (leb b'a' c && leb c b'f')) ≡ true)

abbrev IsDecimal : ℕ → Type 0
IsDecimal c = ((leb b'0' c && leb c b'9') ≡ true)

abbrev NoColon : ℕ → Type 0
NoColon c = ((c == b':') ≡ false)

All-map : (P Q : ℕ → Type 0) (l : List ℕ) → ((c : ℕ) → P c → Q c) → All P l → All Q l
All-map P Q [] f a = tt
All-map P Q (c ∷ l) f a = (f c a.0, All-map P Q l f a.1)

All-append : (P : ℕ → Type 0) (k l : List ℕ) → All P k → All P l → All P (k ++ l)
All-append P [] l a b = b
All-append P (c ∷ k) l a b = (a.0, All-append P k l a.1 b)

split-colon : (w s : List ℕ) → All NoColon w → split b':' (w ++ b':' ∷ s) ≡ w ∷ split b':' s
unfolding split prepend
split-colon [] s a = refl
split-colon (c ∷ w) s a = rw (a.0, split-colon w s a.1) refl

split-last : (w : List ℕ) → All NoColon w → split b':' w ≡ w ∷ []
unfolding split prepend
split-last [] a = refl
split-last (c ∷ w) a = rw (a.0, split-last w a.1) refl

digits-IsDecimal : (fuel n : ℕ) → All IsDecimal (digits fuel n)
unfolding digits
digits-IsDecimal zero n = tt
digits-IsDecimal (suc fuel) n = elim (Bool-cases (ltb n 10)) [
  | inl y ↦ rw y ((ground arith, tt))
  | inr f ↦ rw f (
      All-append IsDecimal (digits fuel (n / 10)) ((b'0' + n % 10) ∷ [])
        (digits-IsDecimal fuel (n / 10)) ((ground arith, tt)))
]

module _ (u : Unicode) where
  int_from-append :
      (v : ℕ) (xs ys : List ℕ)
      → All IsDecimal xs
      → int_from u v (xs ++ ys) ≡ (int_from u v xs >>= λ w. int_from u w ys)
  unfolding int_from to_ascii
  int_from-append v [] ys a = refl
  int_from-append v (c ∷ xs) ys a =
      let low : ltb c 127 ≡ true = ground (arith, a.0) in
      rw (low, a.0) (int_from-append (v * 10 + (c - b'0')) xs ys a.1)

  int_from-one : (v d : ℕ) → d < 10 → int_from u v ((b'0' + d) ∷ []) ≡ ok (v * 10 + d)
  unfolding int_from to_ascii
  int_from-one v d h = ground arith

  -- Reading back what `str` writes.
  int_from-digits : (fuel n : ℕ) → n < fuel → int_from u 0 (digits fuel n) ≡ ok n
  unfolding digits
  int_from-digits zero n h = elim h [ ]
  int_from-digits (suc fuel) n h = elim (Bool-cases (ltb n 10)) [
    | inl y ↦ rw y (int_from-one 0 n (ground arith) ∙ ap ok (omega arith))
    | inr f ↦
        let big = ltb-false-le n 10 f in
        let high = int_from-digits fuel (n / 10) (omega (arith, big, h)) in
        let low : n / 10 * 10 + n % 10 ≡ n = omega arith in
        rw f (
          int_from-append 0 (digits fuel (n / 10)) ((b'0' + n % 10) ∷ [])
            (digits-IsDecimal fuel (n / 10))
          ∙ ap (λ r. r >>= λ w. int_from u w ((b'0' + n % 10) ∷ [])) high
          ∙ int_from-one (n / 10) (n % 10) (omega arith)
          ∙ ap ok low)
  ]

  hex_low : (c : ℕ) → IsHex c → to_ascii u c ≡ c
  unfolding to_ascii
  hex_low c h = ground arith

  map-hex : (l : List ℕ) → All IsHex l → map (to_ascii u) l ≡ l
  map-hex [] a = refl
  map-hex (c ∷ l) a = rw (hex_low c a.0, map-hex l a.1) refl

  hex_rest-hex : (l : List ℕ) → All IsHex l → hex_rest false l ≡ true
  unfolding hex_rest
  hex_rest-hex [] a = refl
  hex_rest-hex (c ∷ l) a = ground (arith, hex_rest-hex l a.1)

  unsigned-hex :
      (c d : ℕ) (l : List ℕ) → All IsHex (c ∷ d ∷ l) → unsigned (skip_spaces (c ∷ d ∷ l)) ≡ true
  unfolding skip_spaces
  unsigned-hex c d l a =
      let rest = hex_rest-hex (d ∷ l) a.1 in
      let shut : is_ascii_space c ≡ false = ground (arith, a.0) in
      let signless : (c == b'+' || c == b'-') ≡ false = ground (arith, a.0) in
      let plain : (c == b'0' && (d == b'x' || d == b'X')) ≡ false = ground (arith, a.1.0) in
      let first : is_hex_digit c ≡ true = ground (arith, a.0) in
      rw (shut, signless, plain, first) rest

  is_int16-hex : (c d : ℕ) (l : List ℕ) → All IsHex (c ∷ d ∷ l) → is_int16 u (c ∷ d ∷ l) ≡ true
  unfolding is_int16 skip_spaces
  is_int16-hex c d l a =
      ap (λ s. unsigned (skip_spaces s)) (map-hex (c ∷ d ∷ l) a) ∙ unsigned-hex c d l a

  is_hex_of_length-hex : (l : List ℕ) → length l ≡ 8 → All IsHex l → is_hex_of_length u l 8 ≡ true
  unfolding is_hex_of_length
  is_hex_of_length-hex [] e a = absurd (omega (arith, e))
  is_hex_of_length-hex (c ∷ []) e a = absurd (omega (arith, e))
  is_hex_of_length-hex (c ∷ d ∷ l) e a = let t = is_int16-hex c d l a in ground (arith, e, t)

  all_digits-IsDecimal : (l : List ℕ) → All IsDecimal l → all_digits u l ≡ true
  unfolding all_digits
  all_digits-IsDecimal [] a = refl
  all_digits-IsDecimal (c ∷ l) a = ground (arith, all_digits-IsDecimal l a.1)

  isdigit-append :
      (l : List ℕ) (d : ℕ) → all_digits u (l ++ d ∷ []) ≡ true → isdigit u (l ++ d ∷ []) ≡ true
  isdigit-append [] d h = h
  isdigit-append (c ∷ l) d h = h

  isdigit-decimal_of : (fuel n : ℕ) → isdigit u (digits (suc fuel) n) ≡ true
  unfolding digits all_digits
  isdigit-decimal_of fuel n = elim (Bool-cases (ltb n 10)) [
    | inl y ↦ rw y (ground arith)
    | inr f ↦ rw f (
        isdigit-append (digits fuel (n / 10)) (b'0' + n % 10) (
          all_digits-IsDecimal _ (
            All-append IsDecimal (digits fuel (n / 10)) ((b'0' + n % 10) ∷ [])
              (digits-IsDecimal fuel (n / 10)) ((ground arith, tt)))))
  ]

  hex-NoColon : (c : ℕ) → IsHex c → NoColon c
  hex-NoColon c h = ground arith

  decimal-NoColon : (c : ℕ) → IsDecimal c → NoColon c
  decimal-NoColon c h = ground arith

  parse_parts-tag :
      (order8 session8 : List ℕ) (n : ℕ)
      → length order8 ≡ 8
      → length session8 ≡ 8
      → All IsHex order8
      → All IsHex session8
      → parse_parts u (order8 ∷ session8 ∷ decimal_of n ∷ [])
        ≡ ok (some (record { order8 = order8; session8 = session8; step = n }))
  parse_parts-tag order8 session8 n e f a b =
      let more : n + 1 ≡ suc n = omega arith in
      let d : isdigit u (digits (n + 1) n) ≡ true =
        ap (λ k. isdigit u (digits k n)) more ∙ isdigit-decimal_of n n in
      rw
        (
          is_hex_of_length-hex order8 e a,
          is_hex_of_length-hex session8 f b,
          d,
          int_from-digits (n + 1) n (omega arith),
        )
        refl

  tag_made :
      (order8 session8 : List ℕ) (n : ℕ) {t tag : List ℕ}
      → t ≡ order8 ++ b':' ∷ (session8 ++ b':' ∷ decimal_of n)
      → (if ltb 28 (encoded_length t) then raised value_error else ok t) ≡ ok tag
      → t ≡ tag
  tag_made order8 session8 n e h = ground arith

  -- A session tag made of an order and a session whose first eight characters, the order's dashes
  -- aside, are lowercase hexadecimal digits is read back as these sixteen characters and the step.
  pub parse_session_tag-session_tag :
      (order_id session_id : List ℕ) (n : ℕ) {tag : List ℕ}
      → length (take order_tag_len (without_dashes order_id)) ≡ 8
      → length (take session_tag_len session_id) ≡ 8
      → All IsHex (take order_tag_len (without_dashes order_id))
      → All IsHex (take session_tag_len session_id)
      → session_tag order_id session_id n ≡ ok tag
      → parse_session_tag u tag
        ≡ ok (
            some (record {
              order8 = take order_tag_len (without_dashes order_id);
              session8 = take session_tag_len session_id;
              step = n;
            }))
  unfolding session_tag parse_session_tag
  parse_session_tag-session_tag order_id session_id n {tag = tag} e f a b h =
      let o = take order_tag_len (without_dashes order_id) in
      let s = take session_tag_len session_id in
      let made : o ++ b':' ∷ (s ++ b':' ∷ decimal_of n) ≡ tag = tag_made o s n refl h in
      let cut = split-colon o (s ++ b':' ∷ decimal_of n) (All-map IsHex NoColon o hex-NoColon a) in
      let cut' = split-colon s (decimal_of n) (All-map IsHex NoColon s hex-NoColon b) in
      let cut'' =
        split-last (decimal_of n)
          (All-map IsDecimal NoColon (decimal_of n) decimal-NoColon (digits-IsDecimal (n + 1) n)) in
      ap (λ t. parse_parts u (split b':' t)) (sym made)
      ∙ ap (parse_parts u) (cut ∙ ap (λ r. o ∷ r) (cut' ∙ ap (λ r. s ∷ r) cut''))
      ∙ parse_parts-tag o s n e f a b
