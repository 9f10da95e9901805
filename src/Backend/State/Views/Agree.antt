-- ===== src/Backend/State/Views/Agree.antt =====
-- The views of the shared state tell the same (src/backend/state.py).
use aot_drone.Backend.State.Tel.{age_of}
use aot_drone.Backend.State.Vis.{get_vis_age_s}
use aot_drone.Common.{
  ap, true, false, none, Bool, Option, ◌≡◌, refl, not, some, String, List, [], ◌∷◌, ok, All,
  value_error, guard, >>=-eq-ok, ok-injective,
}
use aot_drone.Runtime.{max_f, Runtime, zero_f}
use aot_drone.Json.{Value, bool, Fields, get}
use aot_drone.Backend.State.{SharedState}
use aot_drone.Backend.State.Views.{
  stats_age, link_age, vis_link, opt_float, get_vis_stats, get_vis_status, get_link_status,
  LinkSettings,
}

module _ (R : Runtime) where
  open R use {Float, lt, le, sub}

  -- two dicts have the same value under each of the keys
  abbrev pub SameOn : List String → Fields Float → Fields Float → Type 0
  SameOn ks d e = All (λ k. get k d ≡ get k e) ks

  -- what `vis_connected` says of the time of the last message
  pub data SaysConnected (threshold_s now_s : Float)
      : Option Float → Option (Value Float) → Type 0 where
    never : SaysConnected threshold_s now_s none (some (bool false))
    within :
        (rx : Float)
        → le (max_f R (zero_f R) (sub now_s rx)) threshold_s ≡ true
        → SaysConnected threshold_s now_s (some rx) (some (bool true))
    beyond :
        (rx : Float)
        → le (max_f R (zero_f R) (sub now_s rx)) threshold_s ≡ false
        → SaysConnected threshold_s now_s (some rx) (some (bool false))

  says :
      (threshold_s now_s rx : Float) (b : Bool)
      → le (max_f R (zero_f R) (sub now_s rx)) threshold_s ≡ b
      → SaysConnected threshold_s now_s (some rx) (some (bool b))
  says threshold_s now_s rx true e = within rx e
  says threshold_s now_s rx false e = beyond rx e

  -- What the dict of `get_vis_status` has in common with the other views of the state at `now_s`
  pub record Agrees (s : SharedState Float) (threshold_s now_s : Float) (l : LinkSettings R)
      (d : Fields Float) : Type 0 where
    pub link :
        SameOn ("vis_age_s" ∷ "vis_rx_ok" ∷ "vis_rx_bad" ∷ []) d (get_link_status R s l now_s)
    pub stats :
        SameOn
          ("vis_age_s" ∷ "vis_rx_ok" ∷ "vis_rx_bad" ∷ "vis_last_seq" ∷ "vis_last_timestamp_s" ∷ [])
          d
          (get_vis_stats R s now_s)
    pub age : get "vis_age_s" d ≡ some (opt_float (get_vis_age_s R s now_s))
    pub connected :
        SaysConnected threshold_s now_s s.vis.last_rx_monotonic_s (get "vis_connected" d)

  vis_link-link_age :
      (o : Option Float) (threshold_s now_s : Float)
      → (vis_link R o threshold_s now_s).0 ≡ link_age R o now_s
  vis_link-link_age none threshold_s now_s = refl
  vis_link-link_age (some rx) threshold_s now_s = refl

  vis_link-stats_age :
      (o : Option Float) (threshold_s now_s : Float)
      → (vis_link R o threshold_s now_s).0 ≡ stats_age R o now_s
  vis_link-stats_age none threshold_s now_s = refl
  vis_link-stats_age (some rx) threshold_s now_s = refl

  vis_link-age_of :
      (o : Option Float) (threshold_s now_s : Float)
      → (vis_link R o threshold_s now_s).0 ≡ age_of R o now_s
  vis_link-age_of none threshold_s now_s = refl
  vis_link-age_of (some rx) threshold_s now_s = refl

  vis_link-SaysConnected :
      (o : Option Float) (threshold_s now_s : Float)
      → SaysConnected threshold_s now_s o (some (bool (vis_link R o threshold_s now_s).1))
  vis_link-SaysConnected none threshold_s now_s = never
  vis_link-SaysConnected (some rx) threshold_s now_s =
      says threshold_s now_s rx (le (max_f R (zero_f R) (sub now_s rx)) threshold_s) refl

  -- If `get_vis_status` returns, then it tells the same age and counts of vision as
  -- `get_link_status` at the same time, the same as `get_vis_stats` there, and the age of
  -- `get_vis_age_s`, and it says that vision is connected exactly when a message was received and
  -- max(0, now - its time) is at most the threshold.
  pub get_vis_status-Agrees :
      (s : SharedState Float) (threshold_s now_s : Float) (l : LinkSettings R) {d : Fields Float}
      → get_vis_status R s threshold_s now_s ≡ ok d
      → Agrees s threshold_s now_s l d
  unfolding get_vis_status get_link_status get_vis_stats get_vis_age_s get
  get_vis_status-Agrees s threshold_s now_s l h =
      let last_rx = s.vis.last_rx_monotonic_s in
      let as_entry : Option Float → Option (Value Float) = λ age. some (opt_float age) in
      let (_, nonneg, made) = >>=-eq-ok (guard (not (lt threshold_s (zero_f R))) value_error) _ h in
      rw (← ok-injective made) (record {
        link = (ap as_entry (vis_link-link_age last_rx threshold_s now_s), (refl, (refl, tt)));
        stats = (
          ap as_entry (vis_link-stats_age last_rx threshold_s now_s),
          (refl, (refl, (refl, (refl, tt)))),
        );
        age = ap as_entry (vis_link-age_of last_rx threshold_s now_s);
        connected = vis_link-SaysConnected last_rx threshold_s now_s;
      })
