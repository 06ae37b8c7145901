-- ===== src/Examples/Flight.antt =====
-- The theorems on shared refreshes at concrete steps: a refresh with two waiters ends, and another
-- starts.
use stripelink.Prelude.{ℕ, ◌≡◌, refl, true, false, some}
use stripelink.Errors.{ok}
use stripelink.TokenProvider.Flight.{
  Provider, join_refresh, publish, finish_refresh, decides, decided, joins, publishes, finishes,
  idle, Reaches, stays, goes,
}
use stripelink.TokenProvider.Flight.Single.{single_flight}
use stripelink.Examples.{second_token}

abbrev deciding : Provider → Provider
deciding p = record p { deciding = true }

abbrev released : Provider → Provider
released p = record p { deciding = false }

abbrev joined : Provider
joined = join_refresh 0 (released (publish second_token (deciding idle)))

abbrev finished : Provider
finished = finish_refresh 0 (ok second_token) joined

abbrev restarted : Provider
restarted = publish second_token (deciding finished)

finished_reached : Reaches idle finished
unfolding publish join_refresh finish_refresh
finished_reached =
    goes
      (goes
        (goes (goes (goes stays (decides refl)) (publishes second_token refl refl)) (decided refl))
        (joins 0 refl))
      (finishes 0 (ok second_token))

restarted_from_idle : Reaches idle restarted
unfolding publish join_refresh finish_refresh
restarted_from_idle = goes (goes finished_reached (decides refl)) (publishes second_token refl refl)

single_flight_example : (◌≡◌ {A = ℕ} 1 1) × (restarted.inflight ≡ some 1)
unfolding publish join_refresh finish_refresh
single_flight_example = single_flight restarted 1 1 restarted_from_idle refl refl
