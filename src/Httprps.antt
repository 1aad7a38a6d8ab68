-- ===== src/Httprps.antt =====
-- httprps/httprps.go: the middleware that counts the requests of the last 60 seconds. An int64 is kept
-- as its residue modulo 2^64. One turn of the ticker's loop is two steps, the atomic swap and the
-- update under the lock, since a request can come between them.
pub mod Window
mod Tests
use ncdn.Base.{
  ℕ, ◌+◌, ◌-◌, ◌%◌, ◌^◌, ◌≡◌, Option, none, some, List, [], ◌∷◌, replicate, get_or, set,
}

-- `windowSize`
abbrev pub window_size : ℕ
window_size = 60

-- `Middleware`, but for the handler and the lock.
pub record Middleware : Type 0 where
  pub curr : ℕ
  pub counts : List ℕ
  pub current_idx : ℕ
  pub total : ℕ

-- `NewMiddleware`
abbrev pub new_middleware : Middleware
new_middleware = record { curr = 0; counts = replicate window_size 0; current_idx = 0; total = 0 }

-- `ServeHTTP` before it calls the handler.
abbrev pub serve_http : Middleware → Middleware
serve_http m = record m { curr = (m.curr + 1) % (2 ^ 64) }

-- `atomic.SwapInt64(&m.curr, 0)`
abbrev pub swap : Middleware → Middleware × ℕ
swap m = (record m { curr = 0 }, m.curr)

-- The update under the lock.
abbrev pub update : Middleware → ℕ → Middleware
update m new_count =
    let old = get_or m.counts m.current_idx 0 in
    let reduced = (m.total + (2 ^ 64 - old)) % (2 ^ 64) in
    record m {
      counts = set m.counts m.current_idx new_count;
      total = (reduced + new_count) % (2 ^ 64);
      current_idx = (m.current_idx + 1) % window_size;
    }

-- `GetRPS`: the division of an int64 as a float64 is a parameter.
abbrev pub get_rps : {F : Type 0} → (ℕ → ℕ → F) → Middleware → F
get_rps divide m = divide m.total window_size

-- A run: the middleware, what the ticker holds between its two steps, the counts of the turns so far,
-- the last one first, and the number of requests.
pub data Runs : Middleware → Option ℕ → List ℕ → ℕ → Type 0 where
  starts : Runs new_middleware none [] 0
  serves :
      (m : Middleware) (p : Option ℕ) (h : List ℕ) (n : ℕ)
      → Runs m p h n
      → Runs (serve_http m) p h (n + 1)
  swaps :
      (m : Middleware) (h : List ℕ) (n : ℕ)
      → Runs m none h n
      → Runs (swap m).0 (some (swap m).1) h n
  updates :
      (m : Middleware) (c : ℕ) (h : List ℕ) (n : ℕ)
      → Runs m (some c) h n
      → Runs (update m c) none (c ∷ h) n
