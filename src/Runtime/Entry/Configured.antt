-- ===== src/Runtime/Entry/Configured.antt =====
-- The path of the OpenSSL config (opensslConfigPath of npm/core/index.js).
use keyobject_aws_kms.Prelude.{
  ℕ, ◌≤◌, ◌≡◌, refl, sym, ap, subst, ◌∙◌, inl, true, ◌==◌, Option, none, some, Text, codes, length,
  text_eq, text_eq_sound, ==_iff, arith,
}
use keyobject_aws_kms.Effects.{attempt, done, read_state, ◌>>=◌}
use keyobject_aws_kms.Effects.Logic.{Runs, Runs-if, Runs-bind}
use keyobject_aws_kms.Runtime.Host.{
  Bytes, Host, Satellite, PrivateFile, TempDirectory, Module, Session, History, Script,
}
use keyobject_aws_kms.Runtime.Rendezvous.Trusted.{Remembered}
use keyobject_aws_kms.Runtime.Satellite.{resolve_satellite}
use keyobject_aws_kms.Runtime.Satellite.Resolved.{Resolved, resolve_satellite-Resolved}
use keyobject_aws_kms.Runtime.File.{publication_timeout, validate_private_file, write_private_file}
use keyobject_aws_kms.Runtime.File.Vetted.{Vetted, InPlace, validate_private_file-InPlace}
use keyobject_aws_kms.Runtime.File.Written.{Placed, write_private_file-Placed}
use keyobject_aws_kms.Runtime.Config.{Result, returns, throws, render_config}
use keyobject_aws_kms.Runtime.Entry.{
  rendered_config, settled, same_config, remember_config, config_file_of, openssl_config_path,
  module_path,
}
use keyobject_aws_kms.Runtime.Entry.Sound.{
  OnSome, IsConfig, Kept, Remembered-IsPlaced, IsPlaced-path,
}
use keyobject_aws_kms.Runtime.Entry.Located.{Located, module_path-Located}
use keyobject_aws_kms.Runtime.Logic.{duty, still, Still, Runs-still, duty-imp}

module _ (host : Host) (rounds : ℕ) where
  -- The bytes are the rendered template of the package.
  abbrev pub IsRendered : Text → Satellite → Bytes → Type 0
  IsRendered library satellite bytes =
      (config : Text) × (render_config (host.decode satellite.config_file.bytes) library
        ≡ returns config)
      × (bytes ≡ host.encode config)

  rendered_config-IsRendered :
      (library : Text) (satellite : Satellite) (h : History) (s : Session)
      → Runs
          (still host s)
          (Still s (λ g bytes. IsRendered library satellite bytes))
          h
          s
          (rendered_config host rounds library satellite)
  unfolding rendered_config attempt
  rendered_config-IsRendered library satellite h s =
      rendered (render_config (host.decode satellite.config_file.bytes) library) refl
    where
      rendered :
          (r : Result Text)
          → render_config (host.decode satellite.config_file.bytes) library ≡ r
          → Runs
              (still host s)
              (Still s (λ g bytes. IsRendered library satellite bytes))
              h
              s
              (settled host rounds r >>= (λ rendered. done (host.encode rendered)))
      rendered (returns config) e = (refl, (config, e, refl))
      rendered (throws cause) e = refl

  same_config_sound :
      (file : PrivateFile) (bytes : Bytes)
      → same_config host rounds file bytes ≡ true
      → (file.digest ≡ host.sha256 bytes) × (length file.bytes ≡ length bytes)
  unfolding same_config
  same_config_sound file bytes h =
      let (digest, size) : (text_eq file.digest (host.sha256 bytes) ≡ true)
          × ((length file.bytes == length bytes) ≡ true) =
        ground (arith, h) in
      (text_eq_sound _ _ digest, (==_iff _ _).0 size)

  module _ (fuel : publication_timeout ≤ rounds) (J : Session → Type 0)
      (keeps : (t : Session) (temp : TempDirectory)
        → J t
        → t.temp_directory ≡ none
        → J (record t { temp_directory = some temp }))
      (remembers : (t : Session) (file : PrivateFile)
        → J t
        → t.cached_config ≡ none
        → IsConfig host t.temp_directory file
        → J (record t { cached_config = some file }))
      (checked : (t : Session)
        → J t
        → OnSome (IsConfig host t.temp_directory) t.cached_config) where
    -- The remembered config has these bytes, is in the directory of the process, and is vetted.
    abbrev pub ConfigFile : Bytes → History → Session → PrivateFile → Type 0
    ConfigFile bytes g t file =
        J t
        × (t.cached_config ≡ some file)
        × IsConfig host t.temp_directory file
        × (file.digest ≡ host.sha256 bytes)
        × (length file.bytes ≡ length bytes)
        × Vetted host file g
        × (directory : Text) × Remembered host t directory g

    Placed-file :
        (bytes : Bytes) (g : History) (t : Session) (file : PrivateFile)
        → Placed host (λ t. J t × (t.cached_config ≡ none)) (codes "awskms.cnf") bytes 256 g t file
        → ConfigFile bytes g (record t { cached_config = some file }) file
    Placed-file bytes g t file (fresh, directory, remembered, (path, b, mode, digest), vetted) =
        let config : IsConfig host t.temp_directory file = (
          mode,
          digest ∙ ap host.sha256 (sym b),
          Remembered-IsPlaced host t (codes "awskms.cnf") file path remembered,
        ) in
        (
          remembers t file fresh.0 fresh.1 config,
          refl,
          config,
          digest,
          ap length b,
          vetted,
          directory,
          remembered,
        )

    config_file_of-ConfigFile :
        (bytes : Bytes) (o : Option PrivateFile) (h : History) (s : Session)
        → J s
        → s.cached_config ≡ o
        → OnSome (IsConfig host s.temp_directory) o
        → Runs (duty host J) (ConfigFile bytes) h s (config_file_of host rounds bytes o)
    unfolding config_file_of
    config_file_of-ConfigFile bytes (some file) h s j e c =
        Runs-if (duty host J) (ConfigFile bytes) h s (same_config host rounds file bytes) _ _
          (λ same.
            let (digest, size) = same_config_sound file bytes same in
            Runs-still host J (λ g u. InPlace host s file g) (ConfigFile bytes) (λ u. done file)
              (validate_private_file host file) h s j (validate_private_file-InPlace host s h file)
              (λ g p u (vetted, directory, remembered).
                (j, e, c, digest, size, vetted, directory, remembered)))
          (λ n. j)
    config_file_of-ConfigFile bytes none h s j e c =
        Runs-bind (duty host J) (Placed host With (codes "awskms.cnf") bytes 256) (ConfigFile bytes)
          (remember_config host rounds) write h s
          (duty-imp host With J (λ t x. x.0) _ write h s
            (write_private_file-Placed host With (λ t temp x e. (keeps t temp x.0 e, x.1)) rounds
              fuel (codes "awskms.cnf") bytes 256 (inl refl) h s (j, e)))
          (λ g p t file placed. Placed-file bytes g t file placed)
      where
        With : Session → Type 0
        With t = J t × (t.cached_config ≡ none)

        write : Script PrivateFile
        write = write_private_file host rounds (codes "awskms.cnf") bytes 256

module _ (host : Host) (rounds : ℕ) (fuel : publication_timeout ≤ rounds) (I : Session → Type 0)
    (kept : Kept host I) where
  -- The path is that of the remembered config: the template of the accepted package, rendered for the
  -- remembered module, in a file that was vetted in the directory of the process.
  pub record Configured (g : History) (t : Session) (path : Text) : Type 0 where
    pub keeps : I t
    pub satellite : Satellite
    pub accepted : t.cached_satellite ≡ some satellite
    pub library : Module
    pub known : t.cached_module ≡ some library
    pub bytes : Bytes
    pub rendered : IsRendered host rounds library.path satellite bytes
    pub file : PrivateFile
    pub remembered : t.cached_config ≡ some file
    pub located : path ≡ file.path
    pub mode : file.mode ≡ 256
    pub digest : file.digest ≡ host.sha256 bytes
    pub size : length file.bytes ≡ length bytes
    pub vetted : Vetted host file g
    pub directory : Text
    pub trusted : Remembered host t directory g
    pub placed : file.path ≡ host.join directory (codes "awskms.cnf")

  module _ (library : Module) (satellite : Satellite) where
    abbrev Both : Session → Type 0
    Both t = (I t × (t.cached_module ≡ some library)) × (t.cached_satellite ≡ some satellite)

    config-Configured :
        (h : History) (s : Session)
        → Both s
        → Runs (duty host I) Configured h s (
            rendered_config host rounds library.path satellite >>= (λ rendered.
              read_state (λ s. config_file_of host rounds rendered s.cached_config)
              >>= (λ file. done file.path)))
    config-Configured h s both =
        Runs-still host I (λ g bytes. IsRendered host rounds library.path satellite bytes)
          Configured _ (rendered_config host rounds library.path satellite) h s both.0.0
          (rendered_config-IsRendered host rounds library.path satellite h s)
          (λ g p bytes rendered.
            Runs-bind (duty host I) (ConfigFile host rounds fuel Both keeps remembers checked bytes)
              Configured (λ file. done file.path)
              (read_state (λ s. config_file_of host rounds bytes s.cached_config)) g s
              (duty-imp host Both I (λ t x. x.0.0) _
                (read_state (λ s. config_file_of host rounds bytes s.cached_config)) g s
                (config_file_of-ConfigFile host rounds fuel Both keeps remembers checked bytes
                  s.cached_config g s both refl (checked s both)))
              (λ g2 p2 t file (b, e, config, digest, size, vetted, directory, trusted). record {
                keeps = b.0.0;
                satellite = satellite;
                accepted = b.1;
                library = library;
                known = b.0.1;
                bytes = bytes;
                rendered = rendered;
                file = file;
                remembered = e;
                located = refl;
                mode = config.0;
                digest = digest;
                size = size;
                vetted = vetted;
                directory = directory;
                trusted = trusted;
                placed = IsPlaced-path host t (codes "awskms.cnf") file config.2 trusted;
              }))
      where
        keeps :
            (t : Session) (temp : TempDirectory)
            → Both t
            → t.temp_directory ≡ none
            → Both (record t { temp_directory = some temp })
        keeps t temp b e = ((kept.keeps_directory t temp b.0.0 e, b.0.1), b.1)

        remembers :
            (t : Session) (file : PrivateFile)
            → Both t
            → t.cached_config ≡ none
            → IsConfig host t.temp_directory file
            → Both (record t { cached_config = some file })
        remembers t file b e c = ((kept.keeps_config t file b.0.0 e c, b.0.1), b.1)

        checked : (t : Session) → Both t → OnSome (IsConfig host t.temp_directory) t.cached_config
        checked t b = (kept.sound t b.0.0).2

  pub openssl_config_path-Configured :
      (h : History) (s : Session)
      → I s
      → Runs (duty host I) Configured h s (openssl_config_path host rounds)
  unfolding openssl_config_path
  openssl_config_path-Configured h s i =
      Runs-bind (duty host I) (Located host rounds fuel I kept) Configured _
        (module_path host rounds) h s (module_path-Located host rounds fuel I kept h s i)
        (λ g1 p1 t1 path l.
          Runs-bind (duty host I) (Resolved host (With l.library)) Configured _
            (resolve_satellite host) g1 t1
            (duty-imp host (With l.library) I (λ t x. x.0) _ (resolve_satellite host) g1 t1
              (resolve_satellite-Resolved host (With l.library) t1 (l.keeps, l.known)
                (λ c satellite a. (kept.keeps_satellite t1 satellite l.keeps c a, l.known)) g1))
            (λ g2 p2 t2 satellite r.
              subst (λ p. Runs (duty host I) Configured g2 t2 (write p satellite)) (sym l.located)
                (config-Configured l.library satellite g2 t2 (r.0, r.1))))
    where
      With : Module → Session → Type 0
      With m t = I t × (t.cached_module ≡ some m)

      write : Text → Satellite → Script Text
      write p satellite = rendered_config host rounds p satellite >>= (λ rendered.
          read_state (λ s. config_file_of host rounds rendered s.cached_config)
          >>= (λ file. done file.path))
