-- ===== src/Kms/Manifest/Arn.antt =====
-- Exactly which texts `parseKeyArn` of scripts/real-kms-keys.mjs accepts, and what it reads.
use keyobject_aws_kms.Prelude.{
  ℕ, zero, suc, ◌≡◌, refl, subst, ap, ◌∙◌, ◌↔◌, true, false, Option, none, some, [], ◌∷◌, ◌++◌,
  arith, is_empty, length, any, All, Text, codes, ◌==◌,
}
use keyobject_aws_kms.Kms.Manifest.{
  colon, ◌>>=◌, strip_prefix, field, until_colon, is_digit, take_digits, is_line_end, KeyArn,
  last_part, parse_key_arn,
}

strip_prefix_sound : (p s : Text) {t : Text} → strip_prefix p s ≡ some t → s ≡ p ++ t
unfolding strip_prefix
strip_prefix_sound [] s h = cc
strip_prefix_sound (c ∷ p) [] h = absurd (cc h)
strip_prefix_sound (c ∷ p) (d ∷ s) {t} h = ground (arith, strip_prefix_sound p s {t = t})

strip_prefix-append : (p t : Text) → strip_prefix p (p ++ t) ≡ some t
unfolding strip_prefix
strip_prefix-append [] t = refl
strip_prefix-append (c ∷ p) t = ground (arith, strip_prefix-append p t)

abbrev pub IsColonFree : Text → Type 0
IsColonFree = All (λ c. (c == colon) ≡ false)

until_colon_sound :
    (s g t : Text) → until_colon s ≡ some (g, t) → (s ≡ g ++ (colon ∷ t)) × IsColonFree g
unfolding until_colon
until_colon_sound [] g t h = absurd (cc h)
until_colon_sound (c ∷ s) [] t h = ground arith
until_colon_sound (c ∷ s) (d ∷ g) t h = ground (arith, until_colon_sound s g t)

until_colon-append : (g t : Text) → IsColonFree g → until_colon (g ++ (colon ∷ t)) ≡ some (g, t)
unfolding until_colon
until_colon-append [] t free = refl
until_colon-append (c ∷ g) t free = ground (arith, until_colon-append g t free.1)

take_digits_sound :
    (n : ℕ) (s d t : Text)
    → take_digits n s ≡ some (d, t)
    → (s ≡ d ++ t) × (length d ≡ n) × All (λ c. is_digit c ≡ true) d
unfolding take_digits
take_digits_sound zero s [] t h = ground arith
take_digits_sound zero s (c ∷ d) t h = ground arith
take_digits_sound (suc n) [] d t h = absurd (cc h)
take_digits_sound (suc n) (c ∷ s) [] t h = ground arith
take_digits_sound (suc n) (c ∷ s) (x ∷ d) t h = ground (arith, take_digits_sound n s d t)

take_digits-append :
    (n : ℕ) (d t : Text)
    → length d ≡ n
    → All (λ c. is_digit c ≡ true) d
    → take_digits n (d ++ t) ≡ some (d, t)
unfolding take_digits
take_digits-append zero [] t l digits = refl
take_digits-append zero (c ∷ d) t l digits = absurd (omega arith)
take_digits-append (suc n) [] t l digits = absurd (omega arith)
take_digits-append (suc n) (c ∷ d) t l digits =
    rw (take_digits-append n d t (omega arith) digits.1, digits.0)

-- The parts of an ARN that `parseKeyArn` accepts.
pub record IsKeyArn (arn : Text) (k : KeyArn) : Type 0 where
  pub partition : Text
  pub text :
      arn
      ≡ codes "arn:"
        ++ (partition
            ++ (colon
                ∷ (codes "kms:"
                    ++ (k.region ++ (colon ∷ (k.account ++ (codes ":key/" ++ k.key_id)))))))
  pub partition_free : IsColonFree partition
  pub partition_full : is_empty partition ≡ false
  pub region_free : IsColonFree k.region
  pub region_full : is_empty k.region ≡ false
  pub account_length : length k.account ≡ 12
  pub account_digits : All (λ c. is_digit c ≡ true) k.account
  pub id_full : is_empty k.key_id ≡ false
  pub id_line : any is_line_end k.key_id ≡ false

field_sound :
    (s g t : Text)
    → field s ≡ some (g, t)
    → (s ≡ g ++ (colon ∷ t)) × IsColonFree g × (is_empty g ≡ false)
unfolding field
field_sound s g t h =
    let found : until_colon s ≡ some (g, t) = ground arith in
    let (split, free) = until_colon_sound s g t found in (split, free, ground arith)

field-append :
    (g t : Text) → IsColonFree g → is_empty g ≡ false → field (g ++ (colon ∷ t)) ≡ some (g, t)
unfolding field
field-append g t free full = rw (until_colon-append g t free, full)

last_part_sound :
    (s t : Text)
    → last_part s ≡ some t
    → (s ≡ t) × (is_empty t ≡ false) × (any is_line_end t ≡ false)
unfolding last_part
last_part_sound s t h = ground arith

parse_key_arn_complete : (arn : Text) (k : KeyArn) → IsKeyArn arn k → parse_key_arn arn ≡ some k
unfolding parse_key_arn
parse_key_arn_complete arn k i = rw (
  i.text,
  field-append i.partition _ i.partition_free i.partition_full,
  field-append k.region _ i.region_free i.region_full,
  take_digits-append 12 k.account _ i.account_length i.account_digits,
  i.id_full,
  i.id_line,
)

through {ℓ κ ι} :
    {A : Type ℓ} {B : Type κ} {G : Type ι} (m : Option A) (f : A → Option B) {b : B}
    → (m >>= f) ≡ some b
    → ((a : A) → m ≡ some a → f a ≡ some b → G)
    → G
through none f h k = absurd (cc h)
through (some a) f h k = k a refl h

parse_key_arn_sound : (arn : Text) (k : KeyArn) → parse_key_arn arn ≡ some k → IsKeyArn arn k
unfolding parse_key_arn
parse_key_arn_sound arn k h = through (strip_prefix (codes "arn:") arn) _ h λ s1 e1 h1.
    through (field s1) _ h1 λ partition e2 h2.
      through (strip_prefix (codes "kms:") partition.1) _ h2 λ s2 e3 h3.
        through (field s2) _ h3 λ region e4 h4.
          through (take_digits 12 region.1) _ h4 λ account e5 h5.
            through (strip_prefix (codes ":key/") account.1) _ h5 λ s3 e6 h6.
              through (last_part s3) _ h6 λ key_id e7 h7.
                let (split2, free2, full2) = field_sound s1 partition.0 partition.1 e2 in
                let (split4, free4, full4) = field_sound s2 region.0 region.1 e4 in
                let (split5, twelve, digits) =
                  take_digits_sound 12 region.1 account.0 account.1 e5 in
                let (split7, full7, line7) = last_part_sound s3 key_id e7 in
                subst (IsKeyArn arn) (cc h7) (record {
                  partition = partition.0;
                  text =
                      strip_prefix_sound (codes "arn:") arn e1
                      ∙ ap (λ x. codes "arn:" ++ x)
                          (split2
                            ∙ ap (λ x. partition.0 ++ (colon ∷ x))
                                (strip_prefix_sound (codes "kms:") partition.1 e3
                                  ∙ ap (λ x. codes "kms:" ++ x)
                                      (split4
                                        ∙ ap (λ x. region.0 ++ (colon ∷ x))
                                            (split5
                                              ∙ ap (λ x. account.0 ++ x)
                                                  (strip_prefix_sound (codes ":key/") account.1 e6
                                                    ∙ ap (λ x. codes ":key/" ++ x) split7)))));
                  partition_free = free2;
                  partition_full = full2;
                  region_free = free4;
                  region_full = full4;
                  account_length = twelve;
                  account_digits = digits;
                  id_full = full7;
                  id_line = line7;
                })

-- `parseKeyArn` reads a region, an account and a key id from a text exactly when the text is
-- arn:PARTITION:kms:REGION:ACCOUNT:key/ID with these parts, where PARTITION and REGION are not empty
-- and hold no colon, ACCOUNT is twelve digits, and ID is not empty and holds no line end.
pub parse_key_arn_iff : (arn : Text) (k : KeyArn) → (parse_key_arn arn ≡ some k) ↔ IsKeyArn arn k
parse_key_arn_iff arn k = (parse_key_arn_sound arn k, parse_key_arn_complete arn k)
