-- ===== src/Httprps/Tests.antt =====
-- A run of the middleware, and the theorems of httprps at it.
use ncdn.Base.{◌+◌, ◌*◌, ◌/◌, ◌%◌, ◌^◌, ◌≡◌, refl, none, some, [], ◌∷◌}
use ncdn.Httprps.{
  Middleware, new_middleware, serve_http, swap, update, get_rps, Runs, starts, serves, swaps,
  updates,
}
use ncdn.Httprps.Window.{sum_first, sum, held, Runs-total, Runs-counted}

abbrev two_served : Middleware
two_served = serve_http (serve_http new_middleware)

-- Two requests, the swap, a third request, and the update.
abbrev after_tick : Middleware
after_tick = update (serve_http (swap two_served).0) 2

a_run : Runs after_tick none (2 ∷ []) 3
a_run = updates _ 2 [] 3 (
    serves _ (some 2) [] 2 (swaps two_served [] 2 (serves _ none [] 1 (serves _ none [] 0 starts))))

two_of_three : get_rps (λ n d. n * 1000 / d) after_tick ≡ 33
two_of_three = refl

Runs-total_example : after_tick.total ≡ sum_first 60 (2 ∷ []) % (2 ^ 64)
Runs-total_example = Runs-total a_run

Runs-counted_example : 3 % (2 ^ 64) ≡ (sum (2 ∷ []) + held none + after_tick.curr) % (2 ^ 64)
Runs-counted_example = Runs-counted a_run
