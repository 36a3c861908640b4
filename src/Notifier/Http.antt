-- ===== src/Notifier/Http.antt =====
-- What the forwarders share: JSON, the HTTP client, the secrets, and the two common ends of a send.
use ovro.Server.Middleware.{equal_fold}
use ovro.Types.{Labels}
use ovro.Prelude.Int.{pos, ℤ}
use ovro.Prelude.{
  ◌<>◌, false, [], ◌∷◌, some, ok, none, err, Error, ℕ, if◌then◌else◌, Result, Option, List, Bool,
  String,
}

mutual
  pub data Json : Type 0 where
    null : Json
    boolean : Bool → Json
    number : ℤ → Json
    string : String → Json
    array : Elements → Json
    object : Members → Json

  pub data Elements : Type 0 where
    no_elements : Elements
    element : Json → Elements → Elements

  pub data Members : Type 0 where
    no_members : Members
    member : String → Json → Members → Members

abbrev pub members : List (String × Json) → Members
members [] = no_members
members ((name, value) ∷ rest) = member name value (members rest)

abbrev pub elements : List Json → Elements
elements [] = no_elements
elements (value ∷ rest) = element value (elements rest)

-- A map literal, and a slice literal.
abbrev pub json_object : List (String × Json) → Json
json_object fields = object (members fields)

abbrev pub json_array : List Json → Json
json_array values = array (elements values)

abbrev pub or_else : Json → Json → Json
or_else null earlier = earlier
or_else later earlier = later

-- The member of a name in any case of the letters, `null` where there is none; of several the last
-- one that is not `null` counts.
unfoldable pub find_member : String → Members → Json
unfolding equal_fold
find_member name no_members = null
find_member name (member other value rest) =
    or_else (find_member name rest) (if equal_fold other name then value else null)

abbrev pub mismatch {ℓ} : {A : Type ℓ} → Result A
mismatch = err "json: cannot unmarshal"

-- `json.Unmarshal` into a struct's field: `null` and a missing member leave the zero value.
unfoldable pub member_of : String → Json → Result Json
unfolding find_member
member_of name (object fields) = ok (find_member name fields)
member_of name null = ok null
member_of name _ = mismatch

abbrev pub as_text : Json → Result String
as_text null = ok ""
as_text (string s) = ok s
as_text _ = mismatch

abbrev pub as_bool : Json → Result Bool
as_bool null = ok false
as_bool (boolean b) = ok b
as_bool _ = mismatch

unfoldable pub text_member : String → Json → Result String
unfolding member_of
text_member name j = elim (member_of name j) [ err e ↦ err e | ok v ↦ as_text v ]

unfoldable pub bool_member : String → Json → Result Bool
unfolding member_of
bool_member name j = elim (member_of name j) [ err e ↦ err e | ok v ↦ as_bool v ]

pub data RequestBody : Type 0 where
  no_body : RequestBody
  json_body : Json → RequestBody
  form_body : String → RequestBody

pub record HttpRequest : Type 0 where
  pub method : String
  pub url : String
  pub headers : List (String × String)
  pub body : RequestBody

-- `json` is the parsed body, `none` where it is no JSON.
pub record HttpAnswer : Type 0 where
  pub status : ℕ
  pub body : String
  pub json : Option Json

-- net/http: the error of `NewRequestWithContext` about an URL, `http.DefaultClient.Do`, and
-- `url.QueryEscape`, and the header of `SetBasicAuth`.
pub record Http (W : Type 0) : Type 0 where
  pub new_request : String → Option Error
  pub send : HttpRequest → W → Result HttpAnswer × W
  pub query_escape : String → String
  pub basic_auth : String → String → String

-- `GetSecretData` of a name and a namespace: a map of texts.
abbrev pub SecretGetter : Type 0 → Type 0
SecretGetter W = String → String → W → Result Labels

abbrev pub json_content : String × String
json_content = ("Content-Type", "application/json")

-- `json.Unmarshal` of a whole body.
abbrev pub decoded_body : HttpAnswer → Result Json
decoded_body answer = elim answer.json [ none ↦ err "invalid JSON" | some j ↦ ok j ]

module _ {W : Type 0} (http : Http W) where
  -- A request with the texts that its two errors are wrapped in.
  unfoldable pub send_request : String → String → HttpRequest → W → Result HttpAnswer × W
  send_request create_error send_error request w = elim (http.new_request request.url) [
    | some e ↦ (err (create_error <> e), w)
    | none ↦
        let (answer, w') = http.send request w in
        elim answer [ err e ↦ (err (send_error <> e), w') | ok a ↦ (ok a, w') ]
  ]

  -- A POST of JSON that succeeds with the statuses that a test accepts.
  unfoldable pub post_expecting :
      (ℤ → String) → (ℕ → Bool) → String → String → HttpRequest → W → Option Error × W
  unfolding send_request
  post_expecting show accepted create_error send_error request w =
      let (answer, w') = send_request create_error send_error request w in
      elim answer [
        | err e ↦ (some e, w')
        | ok a ↦
            if accepted a.status
            then (none, w')
            else (some ("unexpected status code: " <> show (pos a.status)), w')
      ]

-- `secretData[key]` of a secret that a constructor needs, with its message.
abbrev pub required {ℓ} : {A : Type ℓ} → Option String → Error → (String → Result A) → Result A
required none e next = err e
required (some s) e next = next s

-- `GetSecretData` in a constructor.
abbrev pub with_secret {ℓ} : {A : Type ℓ} → Result Labels → (Labels → Result A) → Result A
with_secret (err e) next = err ("failed to get secret: " <> e)
with_secret (ok data_) next = next data_
