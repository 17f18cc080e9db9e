-- ===== src/Auth/Requests.antt =====
-- node/src/auth.rs: which requests need the token, how they carry it, and the requests that sign in and
-- that pair a controller.
use capture_room.Prelude.{
  ℕ, Bool, true, false, not, ◌&&◌, ◌||◌, Option, none, some, List, [], ◌∷◌, ◌++◌, ◌==◌, leb,
  if◌then◌else◌,
}
use capture_room.Auth.Utf8.{
  Text, trim, len, all, is_ascii_alphanumeric, strip_prefix, split, split_once, same,
}
use capture_room.Auth.{
  AccessToken, accepts, attempt, Attempt, right, wrong, exhausted, fresh, is_empty,
}

pub data TokenError : Type 0 where
  no_token bad_length bad_characters : TokenError

pub data Validated : Type 0 where
  invalid : TokenError → Validated
  valid : Text → Validated

-- Letters, digits and - _ . ~
abbrev pub is_token_char : ℕ → Bool
is_token_char c = is_ascii_alphanumeric c || c == 45 || c == 95 || c == 46 || c == 126

abbrev pub is_token_len : ℕ → Bool
is_token_len n = leb 16 n && leb n 128

unfoldable pub validate : Text → Validated
validate token =
    let t = trim token in
    if is_empty t
    then invalid no_token
    else if not (is_token_len (len t))
    then invalid bad_length
    else if not (all is_token_char t)
    then invalid bad_characters
    else valid t

-- The values of a request's headers that are text.
pub record Headers : Type 0 where
  pub authorization : Option Text
  pub cookies : List Text

abbrev pub bearer_prefix : Text
bearer_prefix = 66 ∷ 101 ∷ 97 ∷ 114 ∷ 101 ∷ 114 ∷ 32 ∷ []

abbrev pub find_value : Text → List Text → Option Text
find_value name [] = none
find_value name (pair ∷ pairs) = value_or (split_once 61 (trim pair)) (find_value name pairs)
  where
    value_or : Option (Text × Text) → Option Text → Option Text
    value_or none rest = rest
    value_or (some p) rest = if same p.0 name then some p.1 else rest

-- Each cookie header has its pairs between semicolons (59).
abbrev pub pairs_of : List Text → List Text
pairs_of [] = []
pairs_of (header ∷ headers) = split 59 header ++ pairs_of headers

abbrev pub bearer_of : Option Text → Option Text
bearer_of none = none
bearer_of (some v) = strip_prefix bearer_prefix v

abbrev pub presented_with : Option Text → Text → List Text → Option Text
presented_with (some bearer) name cookies = some (trim bearer)
presented_with none name cookies = find_value name (pairs_of cookies)

-- The token that a request carries; `name` is the cookie's.
unfoldable pub presented : Text → Headers → Option Text
presented name h = presented_with (bearer_of h.authorization) name h.cookies

-- What a browser sends back of a cookie.
abbrev pub cookie_pair : Text → Text → Text
cookie_pair name token = name ++ 61 ∷ token

abbrev pub begins_with : Text → Text → Bool
begins_with prefix t = is_there (strip_prefix prefix t)
  where
    is_there : Option Text → Bool
    is_there none = false
    is_there (some rest) = true

-- "/api/v1/auth"
abbrev pub auth_path : Text
auth_path = 47 ∷ 97 ∷ 112 ∷ 105 ∷ 47 ∷ 118 ∷ 49 ∷ 47 ∷ 97 ∷ 117 ∷ 116 ∷ 104 ∷ []

-- "/api/"
abbrev pub api_prefix : Text
api_prefix = 47 ∷ 97 ∷ 112 ∷ 105 ∷ 47 ∷ []

-- "/ws"
abbrev pub ws_path : Text
ws_path = 47 ∷ 119 ∷ 115 ∷ []

-- "/identity", "/sign-in", "/sign-out", "/link" and "/pair" below the first.
abbrev pub open_paths : List Text
open_paths =
    auth_path
    ∷ (auth_path ++ 47 ∷ 105 ∷ 100 ∷ 101 ∷ 110 ∷ 116 ∷ 105 ∷ 116 ∷ 121 ∷ [])
    ∷ (auth_path ++ 47 ∷ 115 ∷ 105 ∷ 103 ∷ 110 ∷ 45 ∷ 105 ∷ 110 ∷ [])
    ∷ (auth_path ++ 47 ∷ 115 ∷ 105 ∷ 103 ∷ 110 ∷ 45 ∷ 111 ∷ 117 ∷ 116 ∷ [])
    ∷ (auth_path ++ 47 ∷ 108 ∷ 105 ∷ 110 ∷ 107 ∷ [])
    ∷ (auth_path ++ 47 ∷ 112 ∷ 97 ∷ 105 ∷ 114 ∷ [])
    ∷ []

abbrev pub has : Text → List Text → Bool
has t [] = false
has t (u ∷ us) = same u t || has t us

unfoldable pub guarded : Text → Bool
guarded path =
    (begins_with api_prefix path && not (has path open_paths))
    || same path ws_path
    || begins_with (ws_path ++ 47 ∷ []) path

pub data Gate : Type 0 where
  unauthorized passed : Gate

unfoldable pub require : Text → Text → Headers → AccessToken → Gate
require name path h a =
    if guarded path && not (accepts (presented name h) a) then unauthorized else passed

-- Signing in: the token whose cookie is set, if it is the node's.
unfoldable pub post_sign_in : Text → AccessToken → Option Text
post_sign_in token a = if accepts (some (trim token)) a then some (trim token) else none

-- `stored` is the new pairing code, if the database stored it.
abbrev pub renew_pairing_code : Option Text → AccessToken → AccessToken
renew_pairing_code none a = a
renew_pairing_code (some code) a = record a { pairing = fresh code }

pub data Paired : Type 0 where
  forbidden not_stored paired : Paired
  bad_token : TokenError → Paired

abbrev pub store_pair : Validated → Bool → Option Text → AccessToken → AccessToken × Paired
store_pair (invalid e) stored code a = (a, bad_token e)
store_pair (valid token) false code a = (a, not_stored)
store_pair (valid token) true code a =
    (renew_pairing_code code (record a { token = some token }), paired)

abbrev pub pair_with : Attempt → Text → Bool → Option Text → AccessToken → AccessToken × Paired
pair_with right token stored code a = store_pair (validate token) stored code a
pair_with wrong token stored code a = (a, forbidden)
pair_with exhausted token stored code a = (renew_pairing_code code a, forbidden)

-- A controller's code and token: whether the database stores the token, and the new code if it stores
-- that.
unfoldable pub post_pair : Text → Text → Bool → Option Text → AccessToken → AccessToken × Paired
post_pair presented token stored code a =
    let r = attempt presented a.pairing in
    pair_with r.1 token stored code (record a { pairing = r.0 })

pub data TokenSet : Type 0 where
  refused : TokenError → TokenSet
  kept_old done : TokenSet

abbrev pub store_with : Validated → Bool → AccessToken → AccessToken × TokenSet
store_with (invalid e) stored a = (a, refused e)
store_with (valid token) false a = (a, kept_old)
store_with (valid token) true a = (record a { token = some token }, done)

-- The node's own token is set.
unfoldable pub put_node_access_token : Text → Bool → AccessToken → AccessToken × TokenSet
put_node_access_token token stored a = store_with (validate token) stored a
