-- ===== src/State/Pool/Publishing.antt =====
-- What `get_pool` publishes: the pools and the datasets together, or nothing.
use aiotruenas.Base.{
  Bool, true, false, ◌≡◌, refl, sym, ap, ◌∙◌, ◌⊎◌, inl, inr, Option, none, some, [], string_eq,
  if◌then◌else◌,
}
use aiotruenas.Base.Assoc.{lookup-insert}
use aiotruenas.Value.{Key, Value, Fields, get}
use aiotruenas.Rpc.{Reply, returned, failed, aborted}
use aiotruenas.State.Cache.{
  Cache, Server, Platform, Ended, refreshed, on_reply, keyed, plain_derive, normalize, each_entry,
  endpoint, set_endpoint,
}
use aiotruenas.State.Fallback.{clear, flag_failing, note_recovered, note_primary_query_outcome}
use aiotruenas.State.Fallback.Log.{ds-note, ds-note_failed, ds-note_recovered}
use aiotruenas.Specs.Storage.{dataset_vals}
use aiotruenas.State.Pool.{
  carried, is_pool_list, carry_over, merge_boot_pool, add_boot_pool, finish_pool, publish_pools,
  compute_dataset, with_pools, get_pool,
}

ds-carried :
    (o : Option Value) (uid : Key) (pools : Fields) (s : Cache)
    → (carried o uid pools s).1.ds ≡ s.ds
unfolding carried
ds-carried none uid pools s = refl
ds-carried (some cached) uid pools s = ds-note_failed "boot_pool" s

ds-merge_boot_pool :
    (P : Platform) (boot : Value) (o : Option Key) (pools : Fields) (s : Cache)
    → (merge_boot_pool P boot o pools s).1.ds ≡ s.ds
unfolding merge_boot_pool carry_over
ds-merge_boot_pool P boot none pools s = by_uid s.boot_pool_uid
  where
    by_uid : (o : Option Key) → (carry_over o pools s).1.ds ≡ s.ds
    by_uid none = refl
    by_uid (some uid) = ds-carried (get uid (endpoint "pool" s)) uid pools s
ds-merge_boot_pool P boot (some guid) pools s =
    ds-note_recovered "boot_pool" (record s { boot_pool_uid = some guid })

-- Both endpoints, after a refresh that published them: the datasets of the response, and pools that
-- have their figures from these.
abbrev pub IsPublished : Platform → Server → Cache → Cache → Type 0
IsPublished P V s s' =
    (raw : Value) × (V.call "pool.dataset.query" ≡ returned raw)
    × (endpoint "dataset" s' ≡ normalize P (keyed "id" dataset_vals []) (endpoint "dataset" s) raw)
    × (pools : Fields) × (endpoint "pool" s'
        ≡ (each_entry (plain_derive (λ k vals. finish_pool P (endpoint "dataset" s') vals))
            pools).0)

publish_pools-published :
    (P : Platform) (datasets : Fields) (merged : Fields × Cache)
    → ((publish_pools P datasets merged).0 ≡ refreshed)
      × (endpoint "dataset" (publish_pools P datasets merged).1 ≡ datasets)
      × (endpoint "pool" (publish_pools P datasets merged).1
          ≡ (each_entry (plain_derive (λ k vals. finish_pool P datasets vals)) merged.0).0)
unfolding publish_pools endpoint set_endpoint string_eq
publish_pools-published P datasets (pools, s) = (refl, simp (lookup-insert), simp (lookup-insert))

module _ (P : Platform) (V : Server) (s : Cache) where
  -- Nothing, or both endpoints.
  abbrev pub IsAtomic : Ended × Cache → Type 0
  IsAtomic r = (r.1.ds ≡ s.ds) ⊎ (r.0 ≡ refreshed) × IsPublished P V s r.1

  if-IsAtomic :
      (r u : Ended × Cache) (b : Bool) → IsAtomic r → IsAtomic u → IsAtomic (if b then r else u)
  if-IsAtomic r u true left right = left
  if-IsAtomic r u false left right = right

  publish_pools-IsAtomic :
      (raw : Value) (merged : Fields × Cache)
      → V.call "pool.dataset.query" ≡ returned raw
      → IsAtomic (publish_pools P (compute_dataset P raw s).0 merged)
  unfolding compute_dataset
  publish_pools-IsAtomic raw merged asked =
      let (ended, datasets, pools) = publish_pools-published P (compute_dataset P raw s).0 merged in
      inr (
        ended,
        (
          raw,
          asked,
          datasets,
          merged.0,
          pools
              ∙ ap (λ d. (each_entry (plain_derive (λ k vals. finish_pool P d vals)) merged.0).0)
                  (sym datasets),
        ),
      )

  boot-IsAtomic :
      (raw : Value) (r : Reply) (pools : Fields) (u : Cache)
      → V.call "pool.dataset.query" ≡ returned raw
      → u.ds ≡ s.ds
      → IsAtomic (
          on_reply r
            (λ raw_boot w.
              publish_pools P (compute_dataset P raw s).0 (add_boot_pool P raw_boot pools w))
            u)
  unfolding on_reply
  boot-IsAtomic raw (returned boot) pools u asked same = publish_pools-IsAtomic raw _ asked
  boot-IsAtomic raw (failed e) pools u asked same = inl same
  boot-IsAtomic raw (aborted why) pools u asked same = inl same

  pub ds-compute_dataset : (raw : Value) → (compute_dataset P raw s).1.ds ≡ s.ds
  unfolding compute_dataset note_primary_query_outcome
  ds-compute_dataset raw = ds-note "dataset_query" _ s

  with_pools-IsAtomic :
      (raw raw_pools : Value)
      → V.call "pool.dataset.query" ≡ returned raw
      → IsAtomic (with_pools P V (compute_dataset P raw s).0 raw_pools (compute_dataset P raw s).1)
  unfolding with_pools clear flag_failing
  with_pools-IsAtomic raw raw_pools asked =
      if-IsAtomic _ _ (is_pool_list raw_pools)
        (boot-IsAtomic raw (V.call "boot.get_state") _
          (clear "dataset_not_published" (note_recovered "pool_query" (compute_dataset P raw s).1))
          asked
          (ds-note_recovered "pool_query" (compute_dataset P raw s).1 ∙ ds-compute_dataset raw))
        (inl (ds-note_failed "pool_query" (compute_dataset P raw s).1 ∙ ds-compute_dataset raw))

  pools-IsAtomic :
      (raw : Value) (r : Reply)
      → V.call "pool.dataset.query" ≡ returned raw
      → IsAtomic
          (on_reply r (with_pools P V (compute_dataset P raw s).0) (compute_dataset P raw s).1)
  unfolding on_reply
  pools-IsAtomic raw (returned pools) asked = with_pools-IsAtomic raw pools asked
  pools-IsAtomic raw (failed e) asked = inl (ds-compute_dataset raw)
  pools-IsAtomic raw (aborted why) asked = inl (ds-compute_dataset raw)

  datasets-IsAtomic :
      (r : Reply)
      → V.call "pool.dataset.query" ≡ r
      → IsAtomic (
          on_reply r
            (λ raw u.
              on_reply
                (V.call "pool.query")
                (with_pools P V (compute_dataset P raw u).0)
                (compute_dataset P raw u).1)
            s)
  unfolding on_reply
  datasets-IsAtomic (returned raw) asked = pools-IsAtomic raw (V.call "pool.query") asked
  datasets-IsAtomic (failed e) asked = inl refl
  datasets-IsAtomic (aborted why) asked = inl refl

  -- A refresh of the pools publishes the pools and the datasets together, or neither.
  pub get_pool-IsAtomic : IsAtomic (get_pool P V s)
  unfolding get_pool
  get_pool-IsAtomic = datasets-IsAtomic (V.call "pool.dataset.query") refl
