-- ===== src/Backend/App/Routes/Guarded.antt =====
-- A guarded route runs only for who has the token and keeps to the rate (src/backend/app.py).
use aot_drone.Backend.App.Routes.{guard_route}
use aot_drone.Runtime.{StrMethods, Runtime}
use aot_drone.Backend.App.Auth.Tokens.{compare_digest-other}
use aot_drone.Backend.RateLimit.{IpRateLimiter, allow_ip}
use aot_drone.Backend.App.{client_ip, header_or_empty, Request, Reply, refuses, fails, replies}
use aot_drone.Common.Texts.{partition, is_ascii}
use aot_drone.Backend.App.Auth.{rate_limit, require_api_token}
use aot_drone.Common.{
  none, Option, type_error, ◌≡◌, str_eq, false, sym, refl, inl, inr, ◌⊎◌, some, true, String,
  Bool-cases, ◌∙◌,
}

module _ (str : StrMethods) where
  open str use {lower, strip}

  -- the header names the scheme and the token
  pub record IsAuthorized (expected : String) (req : Request) : Type 0 where
    pub scheme :
        str_eq (lower (partition (header_or_empty "authorization" req) " ").0) "bearer" ≡ true
    pub filled : str_eq (partition (header_or_empty "authorization" req) " ").1 "" ≡ false
    pub token : strip (partition (header_or_empty "authorization" req) " ").1 ≡ expected

  -- the token is wrong, or no text that can be compared
  abbrev IsRefusal : Reply (Unit {0}) → Type 0
  IsRefusal reply = (reply ≡ refuses 401) ⊎ (reply ≡ fails type_error)

  pub require_api_token-IsAuthorized :
      (expected : String) (req : Request)
      → is_ascii expected ≡ true
      → (IsAuthorized expected req × (require_api_token str (some expected) req ≡ replies tt))
        ⊎ ((IsAuthorized expected req → ⊥) × IsRefusal (require_api_token str (some expected) req))
  unfolding require_api_token
  require_api_token-IsAuthorized expected req ascii =
      let header = header_or_empty "authorization" req in
      let scheme = (partition header " ").0 in
      let presented = (partition header " ").1 in
      elim (Bool-cases (str_eq (lower scheme) "bearer")) [
        | inr odd ↦ inr ((λ h. let clash = sym odd ∙ h.scheme in cc), rw odd (inl refl))
        | inl named ↦ elim (Bool-cases (str_eq presented "")) [
          | inl blank ↦
              inr ((λ h. let clash = sym blank ∙ h.filled in cc), rw (named, blank) (inl refl))
          | inr filled ↦ elim (compare_digest-other (strip presented) expected ascii) [
            | inl (compared, same) ↦ inl (
              record { scheme = named; filled = filled; token = same },
              rw (named, filled, compared) refl,
            )
            | inr (inl compared, differs) ↦
                inr ((λ h. differs h.token), rw (named, filled, compared) (inl refl))
            | inr (inr compared, differs) ↦
                inr ((λ h. differs h.token), rw (named, filled, compared) (inr refl))
          ]
        ]
      ]

module _ (R : Runtime) where
  open R use {Float}

  rate_limit-cases :
      (now_s : Float) (req : Request) (limiter : Option (IpRateLimiter Float))
      → ((rate_limit R now_s req limiter).0 ≡ replies tt)
        ⊎ ((rate_limit R now_s req limiter).0 ≡ refuses 429)
  unfolding rate_limit
  rate_limit-cases now_s req none = inl refl
  rate_limit-cases now_s req (some limiter) =
      elim (Bool-cases (allow_ip R now_s (client_ip req) limiter).0) [
        | inl allowed ↦ rw allowed (inl refl)
        | inr spent ↦ rw spent (inr refl)
      ]

module _ {A S : Type 0} (R : Runtime) (str : StrMethods) where
  open R use {Float}

  -- what a guarded route does with a request
  abbrev pub IsGuarded :
      String
      → Float
      → Request
      → (S → Reply A × S)
      → Option (IpRateLimiter Float)
      → S
      → Reply A × Option (IpRateLimiter Float) × S
      → Type 0
  IsGuarded expected now_s req endpoint limiter s (reply, limiter', s') =
      let limited = rate_limit R now_s req limiter in
      (IsAuthorized str expected req
        × (limited.0 ≡ replies tt)
        × (reply ≡ (endpoint s).0)
        × (limiter' ≡ limited.1)
        × (s' ≡ (endpoint s).1))
      ⊎ (IsAuthorized str expected req
          × (limited.0 ≡ refuses 429)
          × (reply ≡ refuses 429)
          × (limiter' ≡ limited.1)
          × (s' ≡ s))
      ⊎ ((IsAuthorized str expected req → ⊥)
          × ((reply ≡ refuses 401) ⊎ (reply ≡ fails type_error))
          × (limiter' ≡ limiter)
          × (s' ≡ s))

  -- With an ASCII token expected, a guarded route runs only for a request whose header gives the
  -- scheme bearer and that token and that the limiter lets through; an authorized request beyond
  -- the rate is refused with status 429 and changes the limiter only; any other request is
  -- refused with status 401, or fails with a TypeError, and changes nothing.
  pub guard_route-IsGuarded :
      (expected : String) (now_s : Float) (req : Request) (endpoint : S → Reply A × S)
      (limiter : Option (IpRateLimiter Float)) (s : S)
      → is_ascii expected ≡ true
      → IsGuarded expected now_s req endpoint limiter s
          (guard_route R str (some expected) now_s req endpoint limiter s)
  unfolding guard_route
  guard_route-IsGuarded expected now_s req endpoint limiter s ascii =
      elim (require_api_token-IsAuthorized str expected req ascii) [
        | inr (stranger, inl wrong) ↦ rw wrong (inr (inr (stranger, inl refl, refl, refl)))
        | inr (stranger, inr failed) ↦ rw failed (inr (inr (stranger, inr refl, refl, refl)))
        | inl (authorized, passed) ↦ rw passed (elim (rate_limit-cases R now_s req limiter) [
          | inl allowed ↦ rw allowed (inl (authorized, refl, refl, refl, refl))
          | inr limited ↦ rw limited (inr (inl (authorized, refl, refl, refl, refl)))
        ])
      ]
