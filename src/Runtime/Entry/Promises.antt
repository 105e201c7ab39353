-- ===== src/Runtime/Entry/Promises.antt =====
-- What the exported functions of npm/core/index.js promise, in every process that has called them any
-- number of times and whatever the host answers.
use keyobject_aws_kms.Prelude.{ℕ, ◌≤◌, ◌<◌, ◌≡◌, refl, ◌∙◌, ap, some, [], ◌∷◌}
use keyobject_aws_kms.Effects.{done, throw, stuck, call, read_state, assign}
use keyobject_aws_kms.Effects.Logic.{Duty, Runs, Runs-imp}
use keyobject_aws_kms.Effects.Run.{run}
use keyobject_aws_kms.Effects.Clock.{IsLater}
use keyobject_aws_kms.Runtime.Host.{
  Host, Request, Reply, Failure, now, Answer, ok, failed, PrivateFile, Session, History, Script,
}
use keyobject_aws_kms.Runtime.File.{publication_timeout}
use keyobject_aws_kms.Runtime.Entry.{module_path, openssl_config_path, is_supported}
use keyobject_aws_kms.Runtime.Entry.Sound.{Sound, Sound-Kept, Kept}
use keyobject_aws_kms.Runtime.Entry.Located.{Located, module_path-Located}
use keyobject_aws_kms.Runtime.Entry.Configured.{Configured, openssl_config_path-Configured}
use keyobject_aws_kms.Runtime.Entry.Supported.{calm, Reported, is_supported-Reported}
use keyobject_aws_kms.Runtime.Entry.Exports.{
  Export, initial, Answers, Leaves, perform, Reachable, perform-Good, Reachable-Kept,
}
use keyobject_aws_kms.Runtime.Logic.{Owned, Ticks, latest, reading, duty}

module _ (host : Host) (rounds : ℕ) (fuel : publication_timeout ≤ rounds) where
  -- In every process, after any calls of the exported functions, whether they returned or threw: the
  -- remembered platform package was accepted (its name, version, operating system, processor and libc
  -- are those of the target, its files are in one directory, the digests are theirs). The remembered
  -- module path is that of the package, or that of a copy with the contents of the package's module and
  -- the recorded mode 0500, which has the module's name in the remembered private directory. The
  -- remembered config has the recorded mode 0400 and is `awskms.cnf` in the remembered private
  -- directory. The digest recorded of a copy and of the config is that of the recorded contents.
  pub Reachable-Sound : (s : Session) → Reachable host rounds initial s → Sound host s
  Reachable-Sound s r =
      Reachable-Kept host rounds fuel (Sound host) (Sound-Kept host) initial s (tt, tt, tt) r

  abbrev pub Duties : Duty Session Request Reply Failure
  Duties = duty host (Sound host)

  -- `opensslConfigPath` returns only the path of the remembered config, which is `awskms.cnf` in the
  -- private directory that this very call has inspected, with its root and through its marker. In this
  -- call the file was read back: opened without following a link, a regular file with one link, owned by
  -- the user of the process where that is known, with the recorded device, inode, size and digest, and
  -- of mode 0400. The digest and the size are those of the template of the accepted package rendered for
  -- the module path. On the way it makes only requests that `Owned` allows, the invariant holds also
  -- when it throws, and its fuel is used up only where the clock stands still.
  pub openssl_config_path_lem :
      (s : Session)
      → Reachable host rounds initial s
      → Runs Duties
          (Configured host rounds fuel (Sound host) (Sound-Kept host))
          []
          s
          (openssl_config_path host rounds)
  openssl_config_path_lem s r =
      openssl_config_path-Configured host rounds fuel (Sound host) (Sound-Kept host) [] s
        (Reachable-Sound s r)

  -- `modulePath` returns only the path of the remembered module, after this very call has read the
  -- manifest, the module and the config template of the remembered package with the recorded sizes and
  -- digests, and, where the module is a private copy, the copy.
  pub module_path_lem :
      (s : Session)
      → Reachable host rounds initial s
      → Runs Duties
          (Located host rounds fuel (Sound host) (Sound-Kept host))
          []
          s
          (module_path host rounds)
  module_path_lem s r =
      module_path-Located host rounds fuel (Sound host) (Sound-Kept host) [] s (Reachable-Sound s r)

  abbrev pub Confined : Duty Session Request Reply Failure
  Confined = record { allowed = Owned host; thrown = λ h s e. Unit; out_of_fuel = λ h. Unit }

  -- Whatever the host answers, each exported function changes only what is its own: it creates files only
  -- exclusively, without following a link and with mode 0600; it writes, publishes, and gives a mode
  -- (0400 or 0500) only to files that this call created; it removes only those, and files in directories
  -- that this call created; and it makes and removes only directories of mode 0700. A descriptor of a
  -- file that is there it opens only to read, without following a link. Nothing is said of the paths
  -- that it gives to `readFileSync`.
  pub perform-Confined :
      (export : Export) (s : Session)
      → Reachable host rounds initial s
      → Runs Confined (λ h t u. Unit) [] s (perform host rounds export)
  perform-Confined export s r =
      Runs-imp Duties Confined _ (λ h t u. Unit) (λ h c x. x) (λ h t e x. tt) (λ h x. tt)
        (λ h t a x. tt) (perform host rounds export) [] s
        (perform-Good host rounds fuel (Sound host) (Sound-Kept host) export s
          (Reachable-Sound s r))

  module _ (answers : Answers)
      (clock : (h : History) (time : ℕ) → answers h now ≡ ok time → latest h < time) where
    is_later :
        {before : ℕ} (r : Answer ℕ)
        → ((time : ℕ) → r ≡ ok time → before < time)
        → IsLater (reading now r) before
    is_later (ok time) later = later time refl
    is_later (failed e) later = tt

    ticks :
        (c : Request) (h : History)
        → Ticks h
        → Ticks (record { request = c; answer = answers h c } ∷ h)
    ticks now h t = (is_later (answers h now) (clock h), t)
    ticks _ h t = (tt, t)

    run-ends :
        (m : Script (Unit {0})) (h : History) (s : Session)
        → Ticks h
        → Runs Duties (λ g t u. Sound host t) h s m
        → (t : Session) × Leaves (run answers h s m) t
    run-ends (done a) h s t r = (s, refl)
    run-ends (throw e) h s t r = (s, refl)
    run-ends stuck h s t r = absurd (r t)
    run-ends (call c k) h s t r = run-ends (k (answers h c)) _ s (ticks c h t) (r.1 (answers h c))
    run-ends (read_state k) h s t r = run-ends (k s) h s t r
    run-ends (assign u m) h s t r = run-ends m h u t r

    -- Where every reading of the clock is later than the one before, each exported function ends: it
    -- returns or it throws. The loops that wait for another isolate end within as many rounds as the
    -- publication timeout has nanoseconds.
    pub perform_ends :
        (export : Export) (s : Session)
        → Reachable host rounds initial s
        → (t : Session) × Leaves (run answers [] s (perform host rounds export)) t
    perform_ends export s r = run-ends (perform host rounds export) [] s tt (
        perform-Good host rounds fuel (Sound host) (Sound-Kept host) export s (Reachable-Sound s r))

  -- The config is remembered, and the variables are sound.
  abbrev Settled : PrivateFile → Session → Type 0
  Settled file t = Sound host t × (t.cached_config ≡ some file)

  Settled-Kept : (file : PrivateFile) → Kept host (Settled file)
  Settled-Kept file = record {
    sound = λ s i. i.0;
    keeps_directory = λ s temp i e. ((Sound-Kept host).keeps_directory s temp i.0 e, i.1);
    keeps_satellite =
        λ s satellite i e a. ((Sound-Kept host).keeps_satellite s satellite i.0 e a, i.1);
    keeps_module = λ s m i e x. ((Sound-Kept host).keeps_module s m i.0 e x, i.1);
    keeps_config = λ s f i e x. absurd (cc (i.1, e));
    keeps_registered = λ s i. i;
  }

  -- The path is stable for the life of the process: once a config is remembered, every later call of
  -- `opensslConfigPath`, after any further calls of the exported functions, returns its path or throws,
  -- and the config stays remembered.
  pub openssl_config_path_stable :
      (s t : Session) (file : PrivateFile)
      → Reachable host rounds initial s
      → s.cached_config ≡ some file
      → Reachable host rounds s t
      → (t.cached_config ≡ some file)
        × Runs
            (record Confined { thrown = λ h u e. u.cached_config ≡ some file })
            (λ h u path. (u.cached_config ≡ some file) × (path ≡ file.path))
            []
            t
            (openssl_config_path host rounds)
  openssl_config_path_stable s t file r e later =
      let settled : Settled file t =
        Reachable-Kept host rounds fuel (Settled file) (Settled-Kept file) s t
          (Reachable-Sound s r, e) later in
      (
        settled.1,
        Runs-imp (duty host (Settled file)) _
            (Configured host rounds fuel (Settled file) (Settled-Kept file)) _ (λ h c x. x)
            (λ h u x i. i.1) (λ h x. tt)
            (λ h u path c.
              let same : c.file ≡ file = cc (c.remembered, c.keeps.1) in
              (c.keeps.1, c.located ∙ ap (λ (f : PrivateFile). f.path) same))
            (openssl_config_path host rounds) [] t
            (openssl_config_path-Configured host rounds fuel (Settled file) (Settled-Kept file) [] t
              settled),
      )

  -- `isSupported` never throws, in every process. It reports support only where the probe of this call
  -- failed with one of the two errors of a runtime that has the loader for URL keys, and `modulePath`
  -- returned.
  pub is_supported_lem :
      (s : Session)
      → Reachable host rounds initial s
      → Runs
          (calm host rounds fuel (Sound host) (Sound-Kept host))
          (Reported host rounds fuel (Sound host) (Sound-Kept host))
          []
          s
          (is_supported host rounds)
  is_supported_lem s r =
      is_supported-Reported host rounds fuel (Sound host) (Sound-Kept host) [] s
        (Reachable-Sound s r)
