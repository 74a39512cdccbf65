-- ===== src/Server/Lifetime.antt =====
-- The life of the server of internal/gateway/server.go: the defaults of `New`, the beat of `janitor`,
-- and `Close`. Durations are nanoseconds.
use agentrun_openai.Prelude.{
  ℤ, pos, negsuc, ℕ, zero, suc, ◌+◌, ◌*◌, ◌/◌, ◌≤◌, ◌<◌, Bool, true, false, ◌||◌, List, [], ◌∷◌,
  ◌++◌, Option, if◌then◌else◌, ◌==◌, ltb, arith, ◌⊎◌, inl, inr, Bool-cases,
}
use agentrun_openai.Prelude.Text.{Text}
use agentrun_openai.Prelude.Dict.{Dict, keys}
use agentrun_openai.Json.Order.{text_lt}
use agentrun_openai.Types.{GoError}
use agentrun_openai.Session.{Effect}
use agentrun_openai.Session.Store.{File}
use agentrun_openai.Session.Registry.{Registry, new_registry, evict_idle, close}
use agentrun_openai.Models.{Engine, ModelDetails, Catalog}

abbrev pub second : ℕ
second = 1000000000

abbrev pub minute : ℕ
minute = 60 * 1000000000

-- `sort.Strings`.
unfoldable pub put_text : Text → List Text → List Text
put_text x [] = x ∷ []
put_text x (y ∷ ys) = let rest = put_text x ys in if text_lt x y then x ∷ y ∷ ys else y ∷ rest

unfoldable pub sort_texts : List Text → List Text
sort_texts [] = []
sort_texts (x ∷ xs) = put_text x (sort_texts xs)

-- The defaults of `New`; `max` keeps a time to live that is not positive as 0, as the registry does.
abbrev pub turn_timeout_of : ℤ → ℕ
turn_timeout_of (negsuc n) = 30 * minute
turn_timeout_of (pos n) = if n == 0 then 30 * minute else n

abbrev pub heartbeat_of : ℤ → ℕ
heartbeat_of (negsuc n) = 0
heartbeat_of (pos n) = if n == 0 then 20 * second else n

abbrev pub ttl_of : ℤ → ℕ
ttl_of (negsuc n) = 0
ttl_of (pos n) = n

-- The configuration, apart from what a request reads of it.
pub record Options : Type 0 where
  pub engines : Dict Engine
  pub details : Dict ModelDetails
  pub turn_timeout : ℤ
  pub session_ttl : ℤ
  pub session_store : Text
  pub heartbeat : ℤ

pub record Server : Type 0 where
  pub closed : Bool
  pub catalog : Catalog
  pub registry : Registry
  pub turn_timeout : ℕ
  pub heartbeat : ℕ

-- `New`, on the file of the store at the time; an error of the store is logged.
abbrev pub server_over : Options → Registry × Option GoError → Server
server_over o (registry, e) = record {
  closed = false;
  catalog = record {
    engines = o.engines;
    details = o.details;
    models = sort_texts (keys o.engines);
    routes = [];
  };
  registry = registry;
  turn_timeout = turn_timeout_of o.turn_timeout;
  heartbeat = heartbeat_of o.heartbeat;
}

unfoldable pub new_server : Options → File → ℕ → Server
unfolding sort_texts
new_server o file now = server_over o (new_registry (ttl_of o.session_ttl) o.session_store file now)

-- `Close`, whose body runs once.
abbrev pub closed_with : Server → Registry × List Effect → Server × List Effect
closed_with s (registry, effects) = (record s { closed = true; registry = registry }, effects)

unfoldable pub close_server : Server → Server × List Effect
close_server s = if s.closed then (s, []) else closed_with s (close s.registry)

-- The interval of `janitor`.
abbrev pub clamped : ℕ → ℕ
clamped half =
    if half == 0 || ltb minute half then minute else if ltb half second then second else half

unfoldable pub interval : ℤ → ℕ
interval (negsuc n) = minute
interval (pos n) = clamped (n / 2)

-- The time of a tick, the first of them at `suc zero`.
unfoldable pub tick_time : ℕ → ℕ → ℕ → ℕ
tick_time start i zero = start
tick_time start i (suc k) = tick_time (start + i) i k

-- What the ticker and `stop` bring: `janitor` evicts at each tick and returns at `stop`.
pub data Beat : Type 0 where
  tick : ℕ → Beat
  stops : Beat

abbrev pub and_more : List Effect → Registry × List Effect → Registry × List Effect
and_more before (r, after) = (r, before ++ after)

unfoldable pub janitor : List Beat → Registry → Registry × List Effect
janitor [] r = (r, [])
janitor (stops ∷ beats) r = (r, [])
janitor (tick now ∷ beats) r =
    let (swept, effects) = evict_idle now r in and_more effects (janitor beats swept)

pub interval_bounds : (ttl : ℤ) → (second ≤ interval ttl) × (interval ttl ≤ minute)
unfolding interval
interval_bounds (negsuc n) = ground arith
interval_bounds (pos n) = ground arith

below_or_above : (a b : ℕ) → (a < b) ⊎ (b ≤ a)
below_or_above a b = elim (Bool-cases (ltb a b)) [
  | inl e ↦ inl (ground (arith, e))
  | inr e ↦ inr (ground (arith, e))
]

-- From its start on, a ticker ticks within its interval behind any time.
pub tick_follows :
    (fuel start i x : ℕ)
    → 1 ≤ i
    → start ≤ x
    → x < start + fuel
    → (k : ℕ) × (x < tick_time start i (suc k)) × (tick_time start i (suc k) ≤ x + i)
unfolding tick_time
tick_follows zero start i x h low high = absurd (omega (arith, low, high))
tick_follows (suc fuel) start i x h low high = elim (below_or_above x (start + i)) [
  | inl near ↦ (zero, near, omega (arith, low))
  | inr far ↦
      let (k, after, soon) = tick_follows fuel (start + i) i x h far (omega (arith, high, h)) in
      (suc k, after, soon)
]
