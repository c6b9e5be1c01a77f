-- ===== src/VersionDiff/Manifests.antt =====
-- `diff_dependencies` of src/pkgsentinel/stages/stage3b_full_diff.py, with the names it takes for dangerous. Letters are
-- lowered in ASCII; the order of the changes, which the source takes from sets, is that of the manifests.
use pkg_sentinel.Prelude.{
  String, Bool, false, ◌||◌, List, [], ◌∷◌, ◌++◌, Option, none, some, if◌then◌else◌, str_eq,
  same_codes, codes, lower, any, dict_get, dict_has,
}

pub data ChangeKind : Type 0 where
  added removed version_changed : ChangeKind

pub record DependencyChange : Type 0 where
  pub kind : ChangeKind
  pub name : String
  pub old_spec : String
  pub new_spec : String
  pub is_dangerous : Bool

abbrev pub dangerous_new_deps : List String
dangerous_new_deps =
    "child_process" ∷ "node:child_process" ∷ "node:crypto" ∷ "request" ∷ "node-fetch" ∷ "axios"
    ∷ "got" ∷ "subprocess" ∷ "pycryptodome" ∷ "cryptography" ∷ "requests" ∷ "urllib3" ∷ "httpx"
    ∷ "paramiko" ∷ "fabric" ∷ "psutil" ∷ "PyInstaller" ∷ []

abbrev pub high_risk_new_deps : List String
high_risk_new_deps =
    "node:child_process" ∷ "child_process" ∷ "paramiko" ∷ "fabric" ∷ "pyinstaller" ∷ []

-- `name.lower() in names`
abbrev pub lower_in : List String → String → Bool
lower_in names name = any (λ n. same_codes (codes n) (lower (codes name))) names

unfoldable pub is_dangerous_dep : String → Bool
is_dangerous_dep name = lower_in dangerous_new_deps name || lower_in high_risk_new_deps name

-- A manifest's dependencies, with their version specifications.
abbrev pub Deps : Type 0
Deps = List (String × String)

abbrev pub addition : String → String → DependencyChange
addition name spec = record {
  kind = ChangeKind.added;
  name = name;
  old_spec = "";
  new_spec = spec;
  is_dangerous = is_dangerous_dep name;
}

abbrev pub removal : String → String → DependencyChange
removal name spec = record {
  kind = ChangeKind.removed;
  name = name;
  old_spec = spec;
  new_spec = "";
  is_dangerous = false;
}

abbrev pub version_change : String → String → String → DependencyChange
version_change name old new = record {
  kind = ChangeKind.version_changed;
  name = name;
  old_spec = old;
  new_spec = new;
  is_dangerous = false;
}

unfoldable pub added_deps : Deps → Deps → List DependencyChange
added_deps prev [] = []
added_deps prev ((name, spec) ∷ rest) =
    let more = added_deps prev rest in
    if dict_has str_eq name prev then more else addition name spec ∷ more

unfoldable pub removed_deps : Deps → Deps → List DependencyChange
removed_deps curr [] = []
removed_deps curr ((name, spec) ∷ rest) =
    let more = removed_deps curr rest in
    if dict_has str_eq name curr then more else removal name spec ∷ more

abbrev pub changed_spec : String → String → Option String → List DependencyChange
changed_spec name old none = []
changed_spec name old (some new) = if str_eq old new then [] else version_change name old new ∷ []

unfoldable pub changed_deps : Deps → Deps → List DependencyChange
changed_deps curr [] = []
changed_deps curr ((name, spec) ∷ rest) =
    changed_spec name spec (dict_get str_eq name curr) ++ changed_deps curr rest

unfoldable pub diff_dependencies : Deps → Deps → List DependencyChange
diff_dependencies prev curr =
    added_deps prev curr ++ (removed_deps curr prev ++ changed_deps curr prev)
