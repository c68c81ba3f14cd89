-- ===== src/ReportCfg/Shape.antt =====
-- What a valid report config is, said without the loop of Validate.
use ithiltir_node.Base.{
  ◌≡◌, ◌≢◌, ◌⊎◌, Option, none, some, List, [], ◌∷◌, true, Text, codes, trim_space, All, is_positive,
}
use ithiltir_node.ReportCfg.{Url, Target, Config, config_version}

-- The install id that a target stands for; empty if it names no server.
abbrev pub server : Target → Text
server t = trim_space t.server_install_id

abbrev pub IsEndpoint : Option Url → Type 0
IsEndpoint none = ⊥
IsEndpoint (some u) = ((u.scheme ≡ codes "http") ⊎ (u.scheme ≡ codes "https")) × (u.host ≢ [])

-- Two targets have different ids, and do not name one server.
abbrev pub Apart : Target → Target → Type 0
Apart t u = (t.id ≢ u.id) × ((server t ≡ []) ⊎ (server t ≢ server u))

abbrev pub AllApart : List Target → Type 0
AllApart [] = Unit
AllApart (t ∷ ts) = All (Apart t) ts × AllApart ts

module _ (parse_url : Text → Option Url) where
  pub record IsProper (t : Target) : Type 0 where
    pub positive : is_positive t.id ≡ true
    pub addressed : trim_space t.url ≢ []
    pub reachable : IsEndpoint (parse_url (trim_space t.url))
    pub keyed : trim_space t.key ≢ []
    pub named : (t.server_install_id ≡ []) ⊎ (server t ≢ [])

  pub record IsValid (cfg : Config) : Type 0 where
    pub current : cfg.version ≡ config_version
    pub proper : All IsProper cfg.targets
    pub apart : AllApart cfg.targets
