-- ===== src/Tables/Fetch/Requests.antt =====
-- The requests of tables/fetch.py.
use oraja_traning.Prelude.{
  ℕ, String, Bool, true, false, not, ◌&&◌, Option, none, some, [], ◌∷◌, if◌then◌else◌, nat_beq,
}
use oraja_traning.Prelude.Int.{pos}
use oraja_traning.Prelude.Eq.{◌==◌, string_eq, int_eq, option_eq}
use oraja_traning.Prelude.Dict.{Dict}
use oraja_traning.Prelude.Result.{Result, ok, err}
use oraja_traning.Container.Json.{
  Json, null, int, float, str, arr, obj, Items, Members, no_items, no_members, entries, dict_of,
  item, field,
}
use oraja_traning.Tables.Fetch.Documents.{
  Outside, FetchError, fetch_error, lookup_error, attribute_error, get,
}

-- What the opener does: an answer with its ETag and Last-Modified, an HTTPError, or an OSError.
pub data Reply (B : Type 0) : Type 0 where
  answered : B → Option String → Option String → Reply B
  http_error : ℕ → Reply B
  unreachable : Reply B

-- The opener at an URL with If-None-Match and If-Modified-Since; `json.loads` of a decoded body;
-- the URL that a page's bmstable tag names; the symbol and the entries of GENOCIDE's page;
-- `urljoin`; the scheme and the host of an URL; an URL with its scheme replaced by "https".
pub record Web (B : Type 0) : Type 0 where
  pub open_resource : String → Option String → Option String → Reply B
  pub decode : B → Option Json
  pub html_header : B → String → Option String
  pub legacy : B → Option (String × Items)
  pub urljoin : String → String → String
  pub urlsplit : String → String × Option String
  pub with_https : String → String

-- `_Response`
pub data Response (B : Type 0) : Type 0 where
  fresh : B → Option String → Option String → Response B
  not_modified : Response B

-- `bool(value)`
abbrev pub truthy : Outside → Json → Bool
truthy o null = false
truthy o (Json.bool b) = b
truthy o (int n) = not (n == pos 0)
truthy o (float b) = o.nonzero (float b)
truthy o (str s) = not (s == "")
truthy o (arr no_items) = false
truthy o (arr (item j js)) = true
truthy o (obj no_members) = false
truthy o (obj (field k j ms)) = true

abbrev pub written : Outside → Json → String
written o (str s) = s
written o j = o.shown j

-- `str(validators[key])` if `validators.get(key)`.
abbrev pub validator : Outside → String → Dict String Json → Option String
validator o k d = if truthy o (get k d) then some (written o (get k d)) else none

abbrev pub response_of : {B : Type 0} → Reply B → Result FetchError (Response B)
response_of (answered body etag last) = ok (fresh body etag last)
response_of (http_error code) = if nat_beq code 304 then ok not_modified else err fetch_error
response_of unreachable = err fetch_error

unfoldable pub request_members :
    {B : Type 0} → Outside → Web B → String → Dict String Json → Result FetchError (Response B)
request_members o w url d =
    response_of (w.open_resource url (validator o "etag" d) (validator o "last_modified" d))

-- `_request`: validators that are no mapping have no `get`.
unfoldable pub request :
    {B : Type 0} → Outside → Web B → String → Json → Result FetchError (Response B)
unfolding request_members
request o w url (obj ms) = request_members o w url (entries ms)
request o w url j = if truthy o j then err attribute_error else request_members o w url []

unfoldable pub decode_json : {B : Type 0} → Web B → B → Result FetchError Json
decode_json w body = elim (w.decode body) [ none ↦ err fetch_error | some j ↦ ok j ]

unfoldable pub secure_same_host_url : {B : Type 0} → Web B → String → String → String
secure_same_host_url w base_url resolved_url =
    let base = w.urlsplit base_url in
    let resolved = w.urlsplit resolved_url in
    if base.0 == "https" && resolved.0 == "http" && base.1 == resolved.1
    then w.with_https resolved_url
    else resolved_url

abbrev pub optional : Option String → Json
optional none = null
optional (some s) = str s

abbrev pub is_unmodified : {B : Type 0} → Response B → Bool
is_unmodified (fresh body etag last) = false
is_unmodified not_modified = true

-- `dict(old or {})`. A list of pairs, which `dict` takes too, counts as refused.
unfoldable pub old_validators : Outside → Json → Result FetchError Members
old_validators o (obj ms) = ok ms
old_validators o j = if truthy o j then err lookup_error else ok no_members

-- `_updated_validators`
unfoldable pub updated_validators :
    {B : Type 0} → Outside → Option (Response B) → Json → Result FetchError Members
unfolding old_validators
updated_validators o none old = old_validators o old
updated_validators o (some not_modified) old = old_validators o old
updated_validators o (some (fresh body etag last)) old =
    ok (dict_of (("etag", optional etag) ∷ ("last_modified", optional last) ∷ []))
