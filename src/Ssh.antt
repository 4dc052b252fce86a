-- ===== src/Ssh.antt =====
-- crates/deptui-core/src/ssh.rs: the per-host connection overrides.
use deptui.Prelude.{
  String, Bool, ◌||◌, Option, none, some, List, [], ◌∷◌, ◌++◌, is_some, unwrap_or, or_else,
}
use deptui.Prelude.Text.{concat, join, split_whitespace}

pub record SshOverride : Type 0 where
  pub hostname : Option String
  pub user : Option String
  pub identity : Option String
  pub extra_opts : Option String

-- `SshOverride::default()`.
abbrev pub no_override : SshOverride
no_override = record { hostname = none; user = none; identity = none; extra_opts = none }

unfoldable pub is_active : SshOverride → Bool
is_active o = is_some o.hostname || is_some o.user || is_some o.identity || is_some o.extra_opts

unfoldable pub effective_host : SshOverride → String → String
effective_host o fallback = unwrap_or o.hostname fallback

unfoldable pub effective_user : SshOverride → Option String → Option String
effective_user o fallback = or_else o.user fallback

option_flags : List String → List String
option_flags [] = []
option_flags (token ∷ rest) = "-o" ∷ token ∷ option_flags rest

identity_args : Option String → List String
identity_args none = []
identity_args (some id) = "-i" ∷ id ∷ []

extra_args : Option String → List String
unfolding option_flags split_whitespace
extra_args none = []
extra_args (some opts) = option_flags (split_whitespace opts)

unfoldable pub ssh_args : SshOverride → List String
unfolding identity_args extra_args
ssh_args o = identity_args o.identity ++ extra_args o.extra_opts

joined_opts : List String → Option String
joined_opts [] = none
joined_opts (a ∷ rest) = some (join " " (a ∷ rest))

unfoldable pub deploy_ssh_opts : SshOverride → Option String
unfolding ssh_args joined_opts
deploy_ssh_opts o = joined_opts (ssh_args o)

labelled : String → Option String → List String
labelled label none = []
labelled label (some v) = concat (label ∷ v ∷ []) ∷ []

summary_of : List String → String
summary_of [] = "(none)"
summary_of (b ∷ rest) = join "  " (b ∷ rest)

unfoldable pub summary : SshOverride → String
unfolding labelled summary_of
summary o = summary_of (
    labelled "host=" o.hostname
    ++ (labelled "user=" o.user ++ (labelled "key=" o.identity ++ labelled "opts=" o.extra_opts)))
