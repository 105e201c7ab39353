-- ===== src/Runtime/Entry/Sound.antt =====
-- The invariant of the variables of npm/core/index.js.
use keyobject_aws_kms.Prelude.{
  ◌≡◌, sym, ap, ◌∙◌, true, Option, none, some, Text, codes, text_eq, if◌then◌else◌,
}
use keyobject_aws_kms.Runtime.Host.{
  Host, Satellite, TempDirectory, PrivateFile, Module, Session, History,
}
use keyobject_aws_kms.Runtime.Rendezvous.Trusted.{Remembered}
use keyobject_aws_kms.Runtime.Satellite.Accepted.{Accepted}

abbrev pub OnSome : {A : Type 0} → (A → Type 0) → Option A → Type 0
OnSome P none = Unit
OnSome P (some a) = P a

module _ (host : Host) where
  -- The file has this name in the remembered directory of the process.
  abbrev pub IsPlaced : Option TempDirectory → Text → PrivateFile → Type 0
  IsPlaced o name file =
      (temp : TempDirectory) × (o ≡ some temp) × (file.path ≡ host.join temp.place.path name)

  abbrev copy_name : Text
  copy_name =
      if text_eq host.platform (codes "darwin") then codes "aws-kms.dylib" else codes "aws-kms.so"

  -- A private copy of the provider module, in the directory of the process.
  abbrev pub IsCopy : Option TempDirectory → Satellite → Module → PrivateFile → Type 0
  IsCopy o satellite m file =
      (m.path ≡ file.path)
      × (file.bytes ≡ satellite.module_file.bytes)
      × (file.mode ≡ 320)
      × (file.digest ≡ host.sha256 file.bytes)
      × IsPlaced o copy_name file

  -- The module is the one of the package, in place or as a copy.
  abbrev pub IsModuleOf : Option TempDirectory → Satellite → Module → Option PrivateFile → Type 0
  IsModuleOf o satellite m none = m.path ≡ satellite.module_file.path
  IsModuleOf o satellite m (some file) = IsCopy o satellite m file

  abbrev pub IsModule : Option TempDirectory → Option Satellite → Module → Type 0
  IsModule d o m =
      (satellite : Satellite) × (o ≡ some satellite) × IsModuleOf d satellite m m.private_file

  abbrev pub IsConfig : Option TempDirectory → PrivateFile → Type 0
  IsConfig o file =
      (file.mode ≡ 256)
      × (file.digest ≡ host.sha256 file.bytes)
      × IsPlaced o (codes "awskms.cnf") file

  -- The remembered package was accepted, the remembered module is its module, and the remembered
  -- config is a private file in the remembered directory.
  abbrev pub Sound : Session → Type 0
  Sound s =
      OnSome (Accepted host) s.cached_satellite
      × OnSome (IsModule s.temp_directory s.cached_satellite) s.cached_module
      × OnSome (IsConfig s.temp_directory) s.cached_config

  pub Remembered-IsPlaced :
      (s : Session) (name : Text) (file : PrivateFile) {directory : Text} {g : History}
      → file.path ≡ host.join directory name
      → Remembered host s directory g
      → IsPlaced s.temp_directory name file
  Remembered-IsPlaced s name file e (temp, known, same_path, trusted) =
      (temp, known, e ∙ ap (λ d. host.join d name) same_path)

  pub IsPlaced-path :
      (s : Session) (name : Text) (file : PrivateFile) {directory : Text} {g : History}
      → IsPlaced s.temp_directory name file
      → Remembered host s directory g
      → file.path ≡ host.join directory name
  IsPlaced-path s name file (temp, known, e) (temp2, known2, same_path, trusted) =
      let same_temp : temp ≡ temp2 = cc (known, known2) in
      e
      ∙ ap (λ (x : TempDirectory). host.join x.place.path name) same_temp
      ∙ ap (λ d. host.join d name) (sym same_path)

  -- What every assignment of the runtime keeps.
  pub record Kept (I : Session → Type 0) : Type 0 where
    pub sound : (s : Session) → I s → Sound s
    pub keeps_directory :
        (s : Session) (temp : TempDirectory)
        → I s
        → s.temp_directory ≡ none
        → I (record s { temp_directory = some temp })
    pub keeps_satellite :
        (s : Session) (satellite : Satellite)
        → I s
        → s.cached_satellite ≡ none
        → Accepted host satellite
        → I (record s { cached_satellite = some satellite })
    pub keeps_module :
        (s : Session) (m : Module)
        → I s
        → s.cached_module ≡ none
        → IsModule s.temp_directory s.cached_satellite m
        → I (record s { cached_module = some m })
    pub keeps_config :
        (s : Session) (file : PrivateFile)
        → I s
        → s.cached_config ≡ none
        → IsConfig s.temp_directory file
        → I (record s { cached_config = some file })
    pub keeps_registered : (s : Session) → I s → I (record s { registered = true })

  no_module :
      (o : Option Module) (satellite : Satellite) (c : Option Satellite) (d : Option TempDirectory)
      → c ≡ none
      → OnSome (IsModule d c) o
      → OnSome (IsModule d (some satellite)) o
  no_module none satellite c d e x = tt
  no_module (some m) satellite c d e (t, f, g) = absurd (cc (e, f))

  -- Nothing is placed in a directory that is not there.
  new_directory-IsModuleOf :
      (satellite : Satellite) (m : Module) (o : Option PrivateFile) (d : Option TempDirectory)
      (temp : TempDirectory)
      → d ≡ none
      → IsModuleOf d satellite m o
      → IsModuleOf (some temp) satellite m o
  new_directory-IsModuleOf satellite m none d temp e x = x
  new_directory-IsModuleOf satellite m (some file) d temp e
        (p, b, mode, digest, (there, known, at)) =
      absurd (cc (e, known))

  new_directory-IsModule :
      (o : Option Module) (c : Option Satellite) (d : Option TempDirectory) (temp : TempDirectory)
      → d ≡ none
      → OnSome (IsModule d c) o
      → OnSome (IsModule (some temp) c) o
  new_directory-IsModule none c d temp e x = tt
  new_directory-IsModule (some m) c d temp e (satellite, known, x) =
      (satellite, known, new_directory-IsModuleOf satellite m m.private_file d temp e x)

  new_directory-IsConfig :
      (o : Option PrivateFile) (d : Option TempDirectory) (temp : TempDirectory)
      → d ≡ none
      → OnSome (IsConfig d) o
      → OnSome (IsConfig (some temp)) o
  new_directory-IsConfig none d temp e x = tt
  new_directory-IsConfig (some file) d temp e (mode, digest, (there, known, at)) =
      absurd (cc (e, known))

  pub Sound-Kept : Kept Sound
  Sound-Kept = record {
    sound = λ s i. i;
    keeps_directory = λ s temp i e. (
      i.0,
      new_directory-IsModule s.cached_module s.cached_satellite s.temp_directory temp e i.1,
      new_directory-IsConfig s.cached_config s.temp_directory temp e i.2,
    );
    keeps_satellite = λ s satellite i e a.
        (a, no_module s.cached_module satellite s.cached_satellite s.temp_directory e i.1, i.2);
    keeps_module = λ s m i e x. (i.0, x, i.2);
    keeps_config = λ s file i e x. (i.0, i.1, x);
    keeps_registered = λ s i. i;
  }
