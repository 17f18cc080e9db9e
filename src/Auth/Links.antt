-- ===== src/Auth/Links.antt =====
-- node/src/auth.rs: the links that sign a browser in once. A link is known by the bytes of its secret's
-- hash.
use capture_room.Prelude.{
  ℕ, ◌+◌, ◌-◌, Bool, true, false, not, Option, none, List, [], ◌∷◌, ◌++◌, ltb, if◌then◌else◌,
  length, retain, drop,
}
use capture_room.Auth.{AccessToken, constant_time_eq}

pub record Link : Type 0 where
  pub hash : List ℕ
  pub expires : ℕ

abbrev pub link_ttl_secs : ℕ
link_ttl_secs = 60

abbrev pub is_current : ℕ → Link → Bool
is_current now l = ltb now l.expires

-- The links that have not expired.
unfoldable pub current : ℕ → List Link → List Link
current now links = retain (is_current now) links

-- The last eight of them.
abbrev pub last_eight : List Link → List Link
last_eight links = drop (length links - 8) links

unfoldable pub make_sign_in_link : ℕ → List ℕ → ℕ → List Link → List Link
make_sign_in_link ttl_secs hash now links =
    last_eight (current now links ++ record { hash = hash; expires = now + ttl_secs } ∷ [])

abbrev pub is_other : List ℕ → Link → Bool
is_other hash l = not (constant_time_eq l.hash hash)

-- Whether the link was there and still current, which uses it up.
unfoldable pub take_sign_in_link : List ℕ → ℕ → List Link → List Link × Bool
take_sign_in_link hash now links =
    let before = current now links in
    let after = retain (is_other hash) before in (after, ltb (length after) (length before))

-- Opening a link: only from this machine, and only a taken one signs in, with the node's token.
abbrev pub sign_in_with : Bool → AccessToken → Option (List ℕ)
sign_in_with false a = none
sign_in_with true a = a.token

unfoldable pub get_sign_in_link :
    Bool → List ℕ → ℕ → AccessToken → List Link → List Link × Option (List ℕ)
get_sign_in_link is_loopback hash now a links =
    let r = take_sign_in_link hash now links in
    if is_loopback then (r.0, sign_in_with r.1 a) else (links, none)
