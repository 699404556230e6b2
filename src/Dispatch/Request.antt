-- ===== src/Dispatch/Request.antt =====
-- What `fetch_dispatches` of chief-of-staff/backend/app/connectors/torqueai.py checks before it sends a request:
-- its bounds, and the parts of its configuration.
use Prim.Native.Char.{code}
use Prim.Native.String
use polaris_lab.Base.{
  ℕ, ◌+◌, ◌-◌, String, Bool, true, false, ◌&&◌, ◌||◌, not, Option, none, some, ltb, ◌==◌, str_eq,
  if◌then◌else◌,
}
use polaris_lab.Dispatch.Call.{
  Fault, connector_fault, other_fault, Call, raised, returned, ◌>>◌, raise_if,
}
use polaris_lab.Python.Text.{strip, is_empty}

abbrev torqueai_max_range_days : ℕ
torqueai_max_range_days = 31

abbrev pub torqueai_max_limit : ℕ
torqueai_max_limit = 500

-- The environment variables of the connector; `none` is one that is not set.
pub record Settings : Type 0 where
  pub scope_slug : Option String
  pub token : Option String
  pub base_url : Option String

-- What `urlsplit` finds, the scheme in lower case.
pub record SplitUrl : Type 0 where
  pub scheme : String
  pub netloc : String
  pub path : String
  pub query : String
  pub fragment : String
  pub username : Option String
  pub password : Option String

pub record DispatchRequest : Type 0 where
  pub url : String
  pub date_from : ℕ
  pub date_to : ℕ
  pub page : ℕ
  pub limit : ℕ
  pub token : String

abbrev pub connector_failure : String → Fault
connector_failure code = connector_fault code none

-- `_validate_request_bounds`; a page and a limit are natural numbers here.
unfoldable pub validate_request_bounds : ℕ → ℕ → ℕ → ℕ → Call (Unit {0})
validate_request_bounds date_from date_to page limit = do
  raise_if (ltb date_to date_from) (connector_failure "invalid_request")
  raise_if (ltb torqueai_max_range_days (date_to - date_from + 1))
      (connector_failure "invalid_request")
  raise_if (ltb page 1) (connector_failure "invalid_request")
  raise_if (ltb limit 1 || ltb torqueai_max_limit limit) (connector_failure "invalid_request")

-- `str(os.getenv(name) or "").strip()`
abbrev pub setting : Option String → String
setting none = ""
setting (some value) = strip value

-- `s.rstrip("/")`
unfoldable pub rstrip_slashes : String → String
rstrip_slashes String.[] = ""
rstrip_slashes (String.◌∷◌ c s) =
    let rest = rstrip_slashes s in if code c == 47 && is_empty rest then "" else String.◌∷◌ c rest

abbrev is_given : Option String → Bool
is_given none = false
is_given (some s) = true

-- No HTTPS origin.
abbrev bad_origin : SplitUrl → Bool
bad_origin u =
    not (str_eq u.scheme "https")
    || is_empty u.netloc
    || is_given u.username
    || is_given u.password
    || not (is_empty u.query)
    || not (is_empty u.fragment)
    || not (is_empty u.path || str_eq u.path "/")

abbrev pub origin_of : Option SplitUrl → Call String
origin_of none = raised other_fault
origin_of (some u) = do
  raise_if (bad_origin u) (connector_failure "invalid_base_url")
  returned (String.◌++◌ "https://" u.netloc)
