-- ===== src/Queue/AuthzConfig.antt =====
-- internal/queue/authz.go: the attribute categories and trust knobs.
use golang_ap.Prelude.{Bool, Option, List, [], ◌∷◌, ◌++◌, map, if◌then◌else◌}
use golang_ap.Text.{Str, str, to_lower, trim_space, is_empty}

-- The part of Options that authorization reads. A regular expression is its test of a name.
pub record Options : Type 0 where
  pub super_users : List Str
  pub may_impersonate : Option (Str → Bool)
  pub immutable_attrs : List Str
  pub protected_attrs : List Str
  pub secure_attrs : List Str
  pub all_users_trusted : Bool
  pub ignore_secure_attrs : Bool

-- The three maps hold lower-case names.
pub record AuthzConfig : Type 0 where
  pub immutable : List Str
  pub protected : List Str
  pub secure : List Str
  pub all_users_trusted : Bool
  pub ignore_secure : Bool
  pub may_impersonate : Option (Str → Bool)

abbrev pub system_immutable_job_attrs : List Str
system_immutable_job_attrs =
    str "Owner"
    ∷ str "ClusterId"
    ∷ str "JobUniverse"
    ∷ str "ProcId"
    ∷ str "MyType"
    ∷ str "TargetType"
    ∷ str "User"
    ∷ str "OsUser"
    ∷ str "AcctGroup"
    ∷ str "AcctGroupUser"
    ∷ str "AccountingGroup"
    ∷ []

abbrev pub system_secure_job_attrs : List Str
system_secure_job_attrs =
    str "x509userProxySubject"
    ∷ str "x509UserProxyEmail"
    ∷ str "x509UserProxyVOName"
    ∷ str "x509UserProxyFirstFQAN"
    ∷ str "x509UserProxyFQAN"
    ∷ str "TotalSubmitProcs"
    ∷ str "AuthTokenSubject"
    ∷ str "AuthTokenIssuer"
    ∷ str "AuthTokenGroups"
    ∷ str "AuthTokenId"
    ∷ str "AuthTokenScopes"
    ∷ str "AuthTokenProject"
    ∷ str "OsUser"
    ∷ []

abbrev pub system_protected_job_attrs : List Str
system_protected_job_attrs = []

unfoldable pub extra_names : List Str → List Str
extra_names [] = []
extra_names (a ∷ extra) =
    let rest = extra_names extra in
    if is_empty (trim_space a) then rest else to_lower (trim_space a) ∷ rest

-- The keys of the map that `mk` returns.
unfoldable pub make_set : List Str → List Str → List Str
unfolding extra_names
make_set system extra = map to_lower system ++ extra_names extra

unfoldable pub build_authz_config : Options → AuthzConfig
unfolding make_set
build_authz_config opts = record {
  immutable = make_set system_immutable_job_attrs opts.immutable_attrs;
  protected = make_set system_protected_job_attrs opts.protected_attrs;
  secure = make_set system_secure_job_attrs opts.secure_attrs;
  all_users_trusted = opts.all_users_trusted;
  ignore_secure = opts.ignore_secure_attrs;
  may_impersonate = opts.may_impersonate;
}
