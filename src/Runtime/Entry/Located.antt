-- ===== src/Runtime/Entry/Located.antt =====
-- The path of the provider module (resolveModule and modulePath of npm/core/index.js).
use keyobject_aws_kms.Prelude.{ℕ, ◌≤◌, ◌≡◌, refl, sym, ap, ◌∙◌, inr, Option, none, some, Text}
use keyobject_aws_kms.Effects.{read_state, ◌>>=◌}
use keyobject_aws_kms.Effects.Logic.{Runs, Runs-if, Runs-bind}
use keyobject_aws_kms.Runtime.Host.{
  Host, Satellite, PrivateFile, TempDirectory, Module, Session, History, Script,
}
use keyobject_aws_kms.Runtime.Satellite.{resolve_satellite}
use keyobject_aws_kms.Runtime.Satellite.Resolved.{
  Unchanged, Unchanged-⊑, Resolved, resolve_satellite-Resolved,
}
use keyobject_aws_kms.Runtime.File.{publication_timeout, validate_private_file, write_private_file}
use keyobject_aws_kms.Runtime.File.Vetted.{Vetted, IsFileOf, InPlace, validate_private_file-InPlace}
use keyobject_aws_kms.Runtime.File.Written.{Placed, write_private_file-Placed}
use keyobject_aws_kms.Runtime.Entry.{
  inside_archive, module_name, copied_module, module_of, resolve_module, remember_module,
  module_or_new, validate_copy, module_path,
}
use keyobject_aws_kms.Runtime.Entry.Sound.{OnSome, IsModule, Kept, Remembered-IsPlaced}
use keyobject_aws_kms.Runtime.Rendezvous.Trusted.{Remembered}
use keyobject_aws_kms.Runtime.Logic.{duty, still, Still, Runs-still, still-duty, duty-imp}

module _ (host : Host) (rounds : ℕ) (fuel : publication_timeout ≤ rounds) (I : Session → Type 0)
    (keeps : (t : Session) (temp : TempDirectory)
      → I t
      → t.temp_directory ≡ none
      → I (record t { temp_directory = some temp })) where
  abbrev Found : History → Session → Module → Type 0
  Found g t m = I t × IsModule host t.temp_directory t.cached_satellite m

  module_of-Found :
      (satellite : Satellite) (h : History) (s : Session)
      → I s
      → s.cached_satellite ≡ some satellite
      → Runs (duty host I) Found h s (module_of host rounds satellite)
  unfolding module_of copied_module
  module_of-Found satellite h s i e =
      Runs-if (duty host I) Found h s (inside_archive satellite.module_file.path) _ _
        (λ a.
          Runs-bind (duty host I)
            (Placed host With (module_name host rounds) satellite.module_file.bytes 320) Found _
            copy h s
            (duty-imp host With I (λ t x. x.0) _ copy h s
              (write_private_file-Placed host With (λ t temp x e. (keeps t temp x.0 e, x.1)) rounds
                fuel (module_name host rounds) satellite.module_file.bytes 320 (inr refl) h s
                (i, e)))
            (λ g p t file placed. found t file placed.0 placed.2 placed.3))
        (λ a. (i, (satellite, e, refl)))
    where
      With : Session → Type 0
      With t = I t × (t.cached_satellite ≡ some satellite)

      copy : Script PrivateFile
      copy =
          write_private_file host rounds (module_name host rounds) satellite.module_file.bytes 320

      found :
          (t : Session) (file : PrivateFile) {directory : Text} {g : History}
          → With t
          → Remembered host t directory g
          → IsFileOf host
              (host.join directory (module_name host rounds))
              satellite.module_file.bytes
              320
              file
          → I t × IsModule host t.temp_directory t.cached_satellite (copied_module host rounds file)
      found t file x r (p, b, m, d) = (
        x.0,
        (
          satellite,
          x.1,
          (
            refl,
            b,
            m,
            d ∙ ap host.sha256 (sym b),
            Remembered-IsPlaced host t (module_name host rounds) file p r,
          ),
        ),
      )

module _ (host : Host) (rounds : ℕ) (fuel : publication_timeout ≤ rounds) (I : Session → Type 0)
    (kept : Kept host I) where
  -- The module is remembered, and is that of the accepted package.
  abbrev Known : History → Session → Module → Type 0
  Known g t m = I t × (t.cached_module ≡ some m)

  module_or_new-Known :
      (o : Option Module) (h : History) (s : Session)
      → I s
      → s.cached_module ≡ o
      → Runs (duty host I) Known h s (module_or_new host rounds o)
  unfolding module_or_new resolve_module
  module_or_new-Known (some m) h s i e = (i, e)
  module_or_new-Known none h s i e =
      Runs-bind (duty host I)
        (λ g t m. Fresh t × IsModule host t.temp_directory t.cached_satellite m) Known
        (remember_module host rounds) fresh h s
        (duty-imp host Fresh I (λ t x. x.0) _ fresh h s
          (Runs-bind (duty host Fresh) (Resolved host Fresh)
            (λ g t m. Fresh t × IsModule host t.temp_directory t.cached_satellite m)
            (module_of host rounds) (resolve_satellite host) h s
            (resolve_satellite-Resolved host Fresh s (i, e)
              (λ c satellite a. (kept.keeps_satellite s satellite i c a, e)) h)
            (λ g p t satellite r.
              module_of-Found host rounds fuel Fresh
                (λ t temp x e. (kept.keeps_directory t temp x.0 e, x.1)) satellite g t r.0 r.1)))
        (λ g p t m x. (kept.keeps_module t m x.0.0 x.0.1 x.1, refl))
    where
      Fresh : Session → Type 0
      Fresh t = I t × (t.cached_module ≡ none)

      fresh : Script Module
      fresh = resolve_satellite host >>= module_of host rounds

  -- A private copy was vetted, if the module is one.
  abbrev pub CopyVetted : Module → History → Type 0
  CopyVetted m g = OnSome (λ file. Vetted host file g) m.private_file

  -- The path is that of the remembered module; the package was accepted, and all its files and a copy
  -- are unchanged.
  pub record Located (g : History) (t : Session) (path : Text) : Type 0 where
    pub keeps : I t
    pub satellite : Satellite
    pub remembered : t.cached_satellite ≡ some satellite
    pub unchanged : Unchanged host satellite g
    pub library : Module
    pub known : t.cached_module ≡ some library
    pub located : path ≡ library.path
    pub vetted : CopyVetted library g

  validate_copy-Vetted :
      (o : Option PrivateFile) (h : History) (s : Session)
      → Runs
          (still host s)
          (Still s (λ g u. OnSome (λ file. Vetted host file g) o))
          h
          s
          (validate_copy host rounds o)
  unfolding validate_copy
  validate_copy-Vetted none h s = (refl, tt)
  validate_copy-Vetted (some file) h s =
      still-duty host (λ t. t ≡ s) (λ g u. InPlace host s file g) _
        (validate_private_file host file) h s refl (validate_private_file-InPlace host s h file)
        (λ g p u x. (refl, x.0))

  pub module_path-Located :
      (h : History) (s : Session) → I s → Runs (duty host I) Located h s (module_path host rounds)
  unfolding module_path
  module_path-Located h s i =
      Runs-bind (duty host I) Known Located _
        (read_state (λ s. module_or_new host rounds s.cached_module)) h s
        (module_or_new-Known s.cached_module h s i refl)
        (λ g1 p1 t1 m known.
          Runs-bind (duty host I) (Resolved host (λ t. Known g1 t m)) Located _
            (resolve_satellite host) g1 t1
            (duty-imp host (λ t. Known g1 t m) I (λ t x. x.0) _ (resolve_satellite host) g1 t1
              (resolve_satellite-Resolved host (λ t. Known g1 t m) t1 known
                (λ c satellite a. (kept.keeps_satellite t1 satellite known.0 c a, known.1)) g1))
            (λ g2 p2 t2 satellite r.
              Runs-still host I (λ g u. OnSome (λ file. Vetted host file g) m.private_file) Located
                _ (validate_copy host rounds m.private_file) g2 t2 r.0.0
                (validate_copy-Vetted m.private_file g2 t2)
                (λ g3 p3 u vetted. record {
                  keeps = r.0.0;
                  satellite = satellite;
                  remembered = r.1;
                  unchanged = Unchanged-⊑ host satellite p3 r.2;
                  library = m;
                  known = r.0.1;
                  located = refl;
                  vetted = vetted;
                })))
