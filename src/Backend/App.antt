-- ===== src/Backend/App.antt =====
-- The routes of the gateway (src/backend/app.py): requests, replies, and what the routes share.
pub mod Replies
pub mod Auth
pub mod Frames
pub mod Routes
pub mod Video
pub mod Env
pub mod Startup
use aot_drone.Common.{
  Bool, Error, ℕ, String, false, some, ok, raise, Result, List, none, Option, true,
}
use aot_drone.Common.Dicts.{find}

-- `HTTPException` with its status, or an error that no route handles, which the server answers
-- with status 500
pub data Reply {ℓ} (A : Type ℓ) : Type ℓ where
  replies : A → Reply A
  refuses : ℕ → Reply A
  fails : Error → Reply A

-- `if cond: raise HTTPException(status_code=status)`
abbrev pub refuse_if : Bool → ℕ → Reply (Unit {0})
refuse_if false status = replies tt
refuse_if true status = refuses status

infixl 5 ◌>>=◌ ◌>>◌
abbrev pub ◌>>=◌ {ℓ κ} : {X : Type ℓ} {Y : Type κ} → Reply X → (X → Reply Y) → Reply Y
replies x >>= next = next x
refuses status >>= next = refuses status
fails e >>= next = fails e

abbrev pub ◌>>◌ {κ} : {Y : Type κ} → Reply (Unit {0}) → Reply Y → Reply Y
first >> second = first >>= λ _. second

abbrev pub or_fails {ℓ} : {X : Type ℓ} → Result X → Reply X
or_fails (ok x) = replies x
or_fails (raise e) = fails e

abbrev pub or_refuses {ℓ} : {X : Type ℓ} → ℕ → Option X → Reply X
or_refuses status none = refuses status
or_refuses status (some x) = replies x

-- `headers` has its names in lower case; `stream` is the chunks of the body as they come.
pub record Request : Type 0 where
  pub headers : List (String × String)
  pub client : Option String
  pub stream : List (List ℕ)

-- `request.headers.get(name, "")`
abbrev pub header_or_empty : String → Request → String
header_or_empty name req = elim (find name req.headers) [ Option.none ↦ "" | Option.some v ↦ v ]

-- `_client_ip`
abbrev pub client_ip : Request → String
client_ip req = elim req.client [ Option.none ↦ "unknown" | Option.some host ↦ host ]
