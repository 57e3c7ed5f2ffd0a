-- ===== src/State/Pool/Malformed.antt =====
-- `get_pool` on a response of "pool.query" that it cannot use.
use aiotruenas.Base.{true, false, ◌≡◌, refl, ◌∙◌, string_eq}
use aiotruenas.Base.Assoc.{lookup}
use aiotruenas.Value.{Value}
use aiotruenas.Rpc.{returned}
use aiotruenas.State.Cache.{Cache, Server, Platform, refreshed, on_reply}
use aiotruenas.State.Fallback.{
  flag_failing, note_failed, note_fallback_outcome, fallback_endpoint, stale_endpoints,
}
use aiotruenas.State.Fallback.Log.{ds-note_failed, is_failing-noted, is_failing-flag_failing}
use aiotruenas.State.Fallback.Stale.{Among, is_failing-Among}
use aiotruenas.State.Pool.{is_pool_list, compute_dataset, with_pools, get_pool}
use aiotruenas.State.Pool.Publishing.{ds-compute_dataset}

abbrev unpublished : Cache → Cache
unpublished s = flag_failing "dataset_not_published" (note_failed "pool_query" s)

unpublished-pool : (s : Cache) → Among "pool" (stale_endpoints (unpublished s))
unfolding note_fallback_outcome fallback_endpoint lookup string_eq
unpublished-pool s = is_failing-Among "pool_query" "pool" (unpublished s) refl (
    is_failing-flag_failing "pool_query" "dataset_not_published" (note_failed "pool_query" s)
    ∙ is_failing-noted "pool_query" true s)

unpublished-dataset : (s : Cache) → Among "dataset" (stale_endpoints (unpublished s))
unfolding fallback_endpoint lookup string_eq
unpublished-dataset s = is_failing-Among "dataset_not_published" "dataset" (unpublished s) refl (
    is_failing-flag_failing "dataset_not_published" "dataset_not_published"
      (note_failed "pool_query" s))

module _ (P : Platform) (V : Server) (s : Cache) where
  get_pool-unpublished :
      (raw raw_pools : Value)
      → V.call "pool.dataset.query" ≡ returned raw
      → V.call "pool.query" ≡ returned raw_pools
      → is_pool_list raw_pools ≡ false
      → get_pool P V s ≡ (refreshed, unpublished (compute_dataset P raw s).1)
  unfolding get_pool on_reply with_pools
  get_pool-unpublished raw raw_pools datasets pools malformed =
      rw datasets (rw pools (rw malformed refl))

  -- When "pool.query" answers no usable list, nothing is published, and both the pools and the
  -- datasets are listed as stale, whatever the response about the datasets was.
  pub get_pool-malformed :
      (raw raw_pools : Value)
      → V.call "pool.dataset.query" ≡ returned raw
      → V.call "pool.query" ≡ returned raw_pools
      → is_pool_list raw_pools ≡ false
      → ((get_pool P V s).0 ≡ refreshed)
        × ((get_pool P V s).1.ds ≡ s.ds)
        × Among "pool" (stale_endpoints (get_pool P V s).1)
        × Among "dataset" (stale_endpoints (get_pool P V s).1)
  unfolding flag_failing
  get_pool-malformed raw raw_pools datasets pools malformed =
      rw (get_pool-unpublished raw raw_pools datasets pools malformed) (
        refl,
        ds-note_failed "pool_query" (compute_dataset P raw s).1 ∙ ds-compute_dataset P V s raw,
        unpublished-pool (compute_dataset P raw s).1,
        unpublished-dataset (compute_dataset P raw s).1,
      )
