-- ===== src/Backend/App/Auth.antt =====
-- The token of the API and the rate limits of the routes (src/backend/app.py). The expected token is
-- none when the gateway runs without one.
pub mod Tokens
use aot_drone.Runtime.{StrMethods, Runtime}
use aot_drone.Common.Texts.{is_ascii, has_text, partition}
use aot_drone.Backend.RateLimit.{IpRateLimiter, allow_ip}
use aot_drone.Common.{
  Bool, true, Option, type_error, false, ◌∷◌, List, Result, not, str_eq, raise, String, ok, ◌||◌,
  some, ◌&&◌, none, if◌then◌else◌, [],
}
use aot_drone.Backend.App.{
  ◌>>=◌, ◌>>◌, Reply, refuse_if, replies, Request, header_or_empty, client_ip, or_fails,
}
use Prim.Native.String.{◌++◌ as join, len, slice}
use Prim.Native.Char.{Char}
use text.Mathlib.Text.{starts_with}
use text.Mathlib.TextBridge.{to_list}

-- `hmac.compare_digest` of two texts raises TypeError unless both are ASCII
unfoldable pub compare_digest : String → String → Result Bool
compare_digest presented expected =
    if is_ascii presented && is_ascii expected
    then ok (str_eq presented expected)
    else raise type_error

-- `_HTTP_TOKEN_TCHARS`
abbrev http_token_tchars : String
http_token_tchars =
    join "abcdefghijklmnopqrstuvwxyz"
      (join "ABCDEFGHIJKLMNOPQRSTUVWXYZ" (join "0123456789" "!#$%&'*+-.^_`|~"))

abbrev is_tchar : Char → Bool
is_tchar c = has_text http_token_tchars (Prim.Native.String.◌∷◌ c "")

abbrev all_tchars : List Char → Bool
all_tchars [] = true
all_tchars (c ∷ cs) = is_tchar c && all_tchars cs

-- `_is_http_token`
unfoldable pub is_http_token : String → Bool
is_http_token value = not (str_eq value "") && all_tchars (to_list value)

abbrev pub ws_bearer_prefix : String
ws_bearer_prefix = "aot.bearer."

abbrev pub on_compared :
    String → Result Bool → Result (Bool × Option String) → Result (Bool × Option String)
on_compared proto (ok true) rest = ok (true, some proto)
on_compared proto (ok false) rest = rest
on_compared proto (raise e) rest = raise e

-- the loop over the offered protocols
unfoldable pub match_offered : String → List String → Result (Bool × Option String)
unfolding compare_digest
match_offered expected [] = ok (false, none)
match_offered expected (proto ∷ offered) =
    let rest = match_offered expected offered in
    let presented = slice proto (len ws_bearer_prefix) (len proto) in
    if starts_with proto ws_bearer_prefix
    then on_compared proto (compare_digest presented expected) rest
    else rest

abbrev first_of : List String → Option String
first_of [] = none
first_of (proto ∷ offered) = some proto

-- `_select_ws_subprotocol`
unfoldable pub select_ws_subprotocol : Option String → List String → Result (Bool × Option String)
unfolding match_offered
select_ws_subprotocol none offered = ok (true, first_of offered)
select_ws_subprotocol (some expected) offered = match_offered expected offered

-- `_require_api_token`
module _ (str : StrMethods) where
  open str use {lower, strip}

  unfoldable pub require_api_token : Option String → Request → Reply (Unit {0})
  unfolding partition compare_digest
  require_api_token none req = replies tt
  require_api_token (some expected) req = do
    let (scheme, presented) = partition (header_or_empty "authorization" req) " "
    refuse_if (not (str_eq (lower scheme) "bearer") || str_eq presented "") 401
    same ← or_fails (compare_digest (strip presented) expected)
    refuse_if (not same) 401

-- `_rate_limit_frame` and `_rate_limit_intent`
module _ (R : Runtime) where
  open R use {Float}

  abbrev with_answer : Bool × IpRateLimiter Float → Reply (Unit {0}) × Option (IpRateLimiter Float)
  with_answer (allowed, limiter) = (refuse_if (not allowed) 429, some limiter)

  unfoldable pub rate_limit :
      Float
      → Request
      → Option (IpRateLimiter Float)
      → Reply (Unit {0}) × Option (IpRateLimiter Float)
  rate_limit now_s req none = (replies tt, none)
  rate_limit now_s req (some limiter) = with_answer (allow_ip R now_s (client_ip req) limiter)
