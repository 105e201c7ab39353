-- ===== src/Kms/Collect/Sweep.antt =====
-- What the tag sweep of scripts/real-kms-keys.mjs finds, and that it only reads.
use keyobject_aws_kms.Prelude.{
  ◌≡◌, refl, true, Option, List, [], ◌∷◌, inl, inr, ◌⊎◌, All, All-append, In, Text, Bool-cases,
}
use keyobject_aws_kms.Kms.Program.{
  Command, list_resource_tags, get_resources, list_keys, Request, Reply, printed, exited,
  not_launched, KeyEntry, Value, Program, Tried, succeeded, failed, aws_try, read_only_options,
  attempt, ◌>>=◌,
}
use keyobject_aws_kms.Kms.Program.Logic.{History, Seen-⊑, ⊑-cons, Stays, Runs}
use keyobject_aws_kms.Kms.Manifest.{owner_tag, owner_value}
use keyobject_aws_kms.Kms.Teardown.{TeardownOptions, value_tags}
use keyobject_aws_kms.Kms.Teardown.Evidence.{IsReadOnly, asked, Answered}
use keyobject_aws_kms.Kms.Collect.{
  value_resource_arns, value_keys, or_else, is_tagged, found_by, sweep_keys, sweep_listed,
  sweep_resources, sweep_tagged,
}

-- The service has listed the key among those with the owner's tag, or has shown its tags.
abbrev pub Found : TeardownOptions → History → Text → Type 0
Found opts h arn =
    ((value : Option Value) × Answered opts (get_resources owner_tag owner_value) (printed value) h
      × In arn (value_resource_arns value))
    ⊎ ((key : KeyEntry) × (value : Option Value) × Answered opts (list_resource_tags key.key_id)
          (printed value) h
        × (is_tagged (value_tags value) ≡ true)
        × (arn ≡ or_else key.key_arn key.key_id))

pub Found-Stays : (opts : TeardownOptions) (arn : Text) → Stays (λ h. Found opts h arn)
Found-Stays opts arn h g p (inl (value, seen, inside)) = inl (value, Seen-⊑ _ p seen, inside)
Found-Stays opts arn h g p (inr (key, value, seen, tagged, same)) =
    inr (key, value, Seen-⊑ _ p seen, tagged, same)

AllFound-Stays : (opts : TeardownOptions) (arns : List Text) → Stays (λ h. All (Found opts h) arns)
AllFound-Stays opts [] h g p f = tt
AllFound-Stays opts (arn ∷ arns) h g p f =
    (Found-Stays opts arn h g p f.0, AllFound-Stays opts arns h g p f.1)

All-Found :
    (opts : TeardownOptions) (h : History) (value : Option Value) (arns : List Text)
    → Answered opts (get_resources owner_tag owner_value) (printed value) h
    → ((arn : Text) → In arn arns → In arn (value_resource_arns value))
    → All (Found opts h) arns
All-Found opts h value [] seen inside = tt
All-Found opts h value (arn ∷ arns) seen inside = (
  inl (value, seen, inside arn (inl refl)),
  All-Found opts h value arns seen (λ a i. inside a (inr i)),
)

module _ (opts : TeardownOptions) (Q : History → Request → Type 0)
    (reads : (h : History) (c : Command) → IsReadOnly c → Q h (asked opts c)) where
  abbrev answer : Command → Reply → History → History
  answer c r h = record { request = asked opts c; reply = r } ∷ h

  -- A call that reads, and what follows each reply.
  read-Runs :
      {A : Type 0} (P : History → A → Type 0) (c : Command) (f : Tried → Program A) (h : History)
      → IsReadOnly c
      → ((value : Option Value) → Runs Q P (answer c (printed value) h) (f (succeeded value)))
      → ((stderr : Text) → Runs Q P (answer c (exited stderr) h) (f (failed stderr)))
      → Runs Q P h (aws_try (read_only_options opts.aws) c >>= f)
  unfolding aws_try read_only_options attempt
  read-Runs P c f h reading good bad = (
    reads h c reading,
    elim [ printed value ↦ good value | exited stderr ↦ bad stderr | not_launched message ↦ tt ],
  )

  found_by-Found :
      (key : KeyEntry) (found : List Text) (value : Option Value) (h : History)
      → All (Found opts h) found
      → All
          (Found opts (answer (list_resource_tags key.key_id) (printed value) h))
          (found_by key found (succeeded value))
  unfolding found_by
  found_by-Found key found value h f =
      let g = answer (list_resource_tags key.key_id) (printed value) h in
      let old = AllFound-Stays opts found h g (⊑-cons _ h) f in
      elim (Bool-cases (is_tagged (value_tags value))) [
        | inl tagged ↦
            rw tagged
              (All-append (Found opts g) found _ old (inr (key, value, inl refl, tagged, refl), tt))
        | inr other ↦ rw other old
      ]

  found_by_failed :
      (key : KeyEntry) (found : List Text) (stderr : Text)
      → found_by key found (failed stderr) ≡ found
  unfolding found_by
  found_by_failed key found stderr = refl

  sweep_keys-Runs :
      (found : List Text) (keys : List KeyEntry) (h : History)
      → All (Found opts h) found
      → Runs Q (λ g arns. All (Found opts g) arns) h (sweep_keys opts found keys)
  unfolding sweep_keys
  sweep_keys-Runs found [] h f = f
  sweep_keys-Runs found (key ∷ keys) h f =
      read-Runs (λ g arns. All (Found opts g) arns) (list_resource_tags key.key_id)
        (λ tags. sweep_keys opts (found_by key found tags) keys) h tt
        (λ value.
          sweep_keys-Runs (found_by key found (succeeded value)) keys _
            (found_by-Found key found value h f))
        (λ stderr.
          rw (found_by_failed key found stderr)
            (sweep_keys-Runs found keys _ (AllFound-Stays opts found h _ (⊑-cons _ h) f)))

  -- `sweepTagged` only reads, and the service has shown the owner's tag for each ARN that it returns.
  pub sweep_tagged-Runs :
      (h : History) → Runs Q (λ g arns. All (Found opts g) arns) h (sweep_tagged opts)
  unfolding sweep_tagged sweep_resources sweep_listed
  sweep_tagged-Runs h =
      read-Runs (λ g arns. All (Found opts g) arns) (get_resources owner_tag owner_value)
        (sweep_resources opts) h tt
        (λ value.
          All-Found opts (answer (get_resources owner_tag owner_value) (printed value) h) value
            (value_resource_arns value) (inl refl) (λ arn i. i))
        (λ stderr.
          read-Runs (λ g arns. All (Found opts g) arns) list_keys (sweep_listed opts) _ tt
            (λ value. sweep_keys-Runs [] (value_keys value) _ tt) (λ e. tt))
