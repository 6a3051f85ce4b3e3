-- ===== src/Stats.antt =====
-- source/stats.c: the statistics of a server. Each update is one critical section of `m_stats`.
use kv_storage_service.Common.{not, ℤ, pos, minus_one, ◌+ℤ◌, Option, none, some, if◌then◌else◌}
use kv_storage_service.Machine.{M, pure, ◌>>=◌, malloc, free, add_int, to_long}

-- struct statistics_t, less its mutex
pub record Stats : Type 0 where
  pub n_operations : ℤ
  pub total_time : ℤ
  pub n_clients : ℤ

unfoldable pub stats_create : M (Option Stats)
stats_create = do
  stats ← malloc
  if not stats
      then pure none
      else pure (some (record { n_operations = pos 0; total_time = pos 0; n_clients = pos 0 }))

unfoldable pub stats_destroy : Option Stats → M (Unit {0})
stats_destroy none = pure tt
stats_destroy (some stats) = free (some stats)

unfoldable pub update_operations : Option Stats → ℤ → M (Option Stats)
update_operations none time = pure none
update_operations (some s) time = do
  n ← add_int s.n_operations (pos 1)
  t ← to_long (s.total_time +ℤ time)
  pure (some (record s { n_operations = n; total_time = t }))

unfoldable pub update_clients_connect : Option Stats → M (Option Stats)
update_clients_connect none = pure none
update_clients_connect (some s) = do
  n ← add_int s.n_clients (pos 1)
  pure (some (record s { n_clients = n }))

unfoldable pub update_clients_disconnect : Option Stats → M (Option Stats)
update_clients_disconnect none = pure none
update_clients_disconnect (some s) = do
  n ← add_int s.n_clients minus_one
  pure (some (record s { n_clients = n }))
