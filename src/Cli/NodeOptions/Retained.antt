-- ===== src/Cli/NodeOptions/Retained.antt =====
-- The arguments that `withoutOpenSSLConfig` of npm/core/bin/awskms.js keeps, and the NODE_OPTIONS
-- that `nodeOptionsWithConfig` writes.
use keyobject_aws_kms.Prelude.{
  ◌≡◌, refl, sym, ◌∙◌, ap, ◌↔◌, Bool, true, false, Option, some, List, [], ◌∷◌, ◌++◌, arith,
  Bool-cases, inl, inr, All, All-append, keep, Text, text_eq, starts_with, starts_with-append,
  or-true,
}
use keyobject_aws_kms.Cli.NodeOptions.{
  is_config, config_flag, config_prefix, has_openssl_config, retained, without_openssl_config,
  options_with_config, node_options_with_config, parse_node_options, is_hex_escaped,
  quote_arguments,
}
use keyobject_aws_kms.Cli.NodeOptions.RoundTrip.{
  IsKept, IsNonempty, parse-IsNonempty, parse-quote_arguments_kept,
}

retained-has_openssl_config :
    (skip : Bool) (args : List Text) → has_openssl_config (retained skip args) ≡ false
unfolding has_openssl_config retained
retained-has_openssl_config true [] = refl
retained-has_openssl_config false [] = refl
retained-has_openssl_config true (arg ∷ args) = retained-has_openssl_config false args
retained-has_openssl_config false (arg ∷ args) =
    ground (arith, retained-has_openssl_config false args, retained-has_openssl_config true args)

retained-unchanged :
    (args : List Text) → has_openssl_config args ≡ false → retained false args ≡ args
unfolding has_openssl_config retained
retained-unchanged [] h = refl
retained-unchanged (arg ∷ args) h = ground (arith, retained-unchanged args)

-- `withoutOpenSSLConfig` leaves an argument list alone exactly when `hasOpenSSLConfig` finds no
-- OpenSSL config option in it.
pub without_openssl_config_iff :
    (args : List Text) → (without_openssl_config args ≡ args) ↔ (has_openssl_config args ≡ false)
unfolding without_openssl_config
without_openssl_config_iff args = (
  λ e. ap has_openssl_config (sym e) ∙ retained-has_openssl_config false args,
  retained-unchanged args,
)

pub without_openssl_config-clean :
    (args : List Text) → has_openssl_config (without_openssl_config args) ≡ false
unfolding without_openssl_config
without_openssl_config-clean args = retained-has_openssl_config false args

keep-none : (args : List Text) → has_openssl_config args ≡ false → keep is_config args ≡ []
unfolding has_openssl_config
keep-none [] h = refl
keep-none (arg ∷ args) h = ground (arith, keep-none args)

keep-append-config :
    (args : List Text) (path : Text)
    → keep is_config (args ++ (config_prefix ++ path) ∷ [])
      ≡ keep is_config args ++ (config_prefix ++ path) ∷ []
keep-append-config [] path = rw (starts_with-append config_prefix path, or-true)
keep-append-config (arg ∷ args) path = ground (arith, keep-append-config args path)

-- Whatever options were there, the list that is written holds one OpenSSL config option, the one
-- that names the given path.
pub options_with_config-config :
    (args : List Text) (path : Text)
    → keep is_config (options_with_config args path) ≡ (config_prefix ++ path) ∷ []
unfolding options_with_config without_openssl_config
options_with_config-config args path =
    keep-append-config (retained false args) path
    ∙ ap (λ l. l ++ (config_prefix ++ path) ∷ [])
        (keep-none _ (retained-has_openssl_config false args))

retained-All {κ} :
    (P : Text → Type κ) (skip : Bool) (args : List Text) → All P args → All P (retained skip args)
unfolding retained
retained-All P true [] h = h
retained-All P false [] h = h
retained-All P true (arg ∷ args) h = retained-All P false args h.1
retained-All P false (arg ∷ args) h = elim (Bool-cases (text_eq arg config_flag)) [
  | inl flag ↦ rw flag (retained-All P true args h.1)
  | inr other ↦ elim (Bool-cases (starts_with arg config_prefix)) [
    | inl prefix ↦ rw (other, prefix) (retained-All P false args h.1)
    | inr kept ↦ rw (other, kept) (h.0, retained-All P false args h.1)
  ]
]

pub options_with_config-All {κ} :
    (P : Text → Type κ) (args : List Text) (path : Text)
    → All P args
    → P (config_prefix ++ path)
    → All P (options_with_config args path)
unfolding options_with_config without_openssl_config
options_with_config-All P args path h p =
    All-append P (retained false args) _ (retained-All P false args h) (p, tt)

config_prefix-IsKept : IsKept config_prefix
config_prefix-IsKept = (
  refl,
  (
    refl,
    (
      refl,
      (
        refl,
        (
          refl,
          (
            refl,
            (
              refl,
              (refl, (refl, (refl, (refl, (refl, (refl, (refl, (refl, (refl, (refl, tt)))))))))),
            ),
          ),
        ),
      ),
    ),
  ),
)

-- If NODE_OPTIONS reads as arguments that hold no control character and no lone surrogate, and the
-- path holds none either, then the value that `nodeOptionsWithConfig` writes reads back as those
-- arguments without their OpenSSL config options, followed by the option for the path.
pub parse-node_options_with_config :
    (value : Option Text) (path : Text) {args : List Text}
    → parse_node_options value ≡ some args
    → All IsKept args
    → IsKept path
    → (out : Text) × (node_options_with_config value path ≡ some out)
      × (parse_node_options (some out)
          ≡ some (without_openssl_config args ++ (config_prefix ++ path) ∷ []))
unfolding node_options_with_config options_with_config
parse-node_options_with_config value path {args} e k p = (
  quote_arguments (options_with_config args path),
  rw (e, node_options_with_config),
  parse-quote_arguments_kept (options_with_config args path)
      (options_with_config-All IsKept args path k
        (All-append (λ c. is_hex_escaped c ≡ false) config_prefix path config_prefix-IsKept p))
      (options_with_config-All IsNonempty args path (parse-IsNonempty value e) refl),
)
